-- ===== src/TrialService.antt =====
-- application/trials.py and application/payers.py: starting a trial, issuing the invoices of a batch
-- that is due, and looking up those whose outcome is unknown. The provider, the clock, the random
-- counts, `uuid5` and the payers that Faker and Random draw from the batch's id belong to the
-- environment; log lines are left out.
pub mod Issuing
pub mod Reconciling
use starkbank_backend_challe.Base.{
  ℕ, zero, suc, ◌+◌, ◌*◌, ◌^◌, min, Bool, true, false, not, Option, none, some, List, [], ◌∷◌,
  String, ◌<>◌, ltb, if◌then◌else◌,
}
use starkbank_backend_challe.Base.Select.{OrderBy}
use starkbank_backend_challe.Domain.Errors.{
  Error, Result, ok, err, provider, live_operations_disabled, is_timeout, is_transient,
  is_permanent, class_name,
}
use starkbank_backend_challe.Domain.Models.{
  InvoiceDraft, ProviderInvoice, InvoiceBatch, TrialRun, ScheduleSlot,
}
use starkbank_backend_challe.Domain.Status.{BatchStatus, DraftStatus}
use starkbank_backend_challe.Domain.Time.{Datetime, aware, as_utc, seconds}
use starkbank_backend_challe.Schema.{Database, InvoiceBatchRow}
use starkbank_backend_challe.Service.{
  Action, pure, raise, transact, attempt, ◌>>=◌, ◌>>◌, Clock, read_clock, Call, call,
}
use starkbank_backend_challe.Schedule.{build_schedule}
use starkbank_backend_challe.TrialStore.{create, claim_due_batch}
use starkbank_backend_challe.InvoiceStore.{
  save, pending_drafts, mark_created, unknown_result, retry_draft, mark_draft_failed, settle,
}

pub data TrialTickResult : Type 0 where
  no_batch completed reconciling degraded retry_pending live_disabled : TrialTickResult

pub record TrialService : Type 0 where
  pub batch_lease_seconds : ℕ
  pub live_operations_enabled : Bool
  pub retry_base_seconds : ℕ
  pub invoice_max_attempts : ℕ
  pub invoice_reconciliation_max_attempts : ℕ
  pub batch_max_attempts : ℕ

pub record TrialEnv (W : Type 0) : Type 1 where
  pub sql : OrderBy
  pub clock : Clock W
  pub counts : W → List ℕ × W
  pub uuid4 : W → String × W
  pub batch_uuid : String → ℕ → String
  pub draft_uuid : String → ℕ → String
  pub payer_name : String → ℕ → String
  pub payer_tax_id : String → ℕ → String
  pub draft_amount : String → ℕ → ℕ
  pub create_invoice : InvoiceDraft → Call W ProviderInvoice
  pub find_invoice : String → Call W (Option ProviderInvoice)
  pub meanwhile : W → Database → Database
  pub locked : W → InvoiceBatchRow → Bool

-- `_backoff`
unfoldable pub draft_backoff : TrialService → ℕ → ℕ
draft_backoff service attempts = seconds (service.retry_base_seconds * 2 ^ min attempts 8)

unfoldable pub tick_result : BatchStatus → TrialTickResult
tick_result BatchStatus.completed = completed
tick_result BatchStatus.reconciling = reconciling
tick_result BatchStatus.degraded = degraded
tick_result BatchStatus.scheduled = retry_pending
tick_result BatchStatus.issuing = retry_pending

module _ {W : Type 0} (service : TrialService) (env : TrialEnv W) where
  unfoldable pub build_draft : InvoiceBatch → ℕ → ℕ → InvoiceDraft
  build_draft batch created_at ordinal = record {
    id = env.draft_uuid batch.id ordinal;
    batch_id = batch.id;
    ordinal = ordinal;
    payer_name = env.payer_name batch.id ordinal;
    payer_tax_id = env.payer_tax_id batch.id ordinal;
    amount = env.draft_amount batch.id ordinal;
    tag = "trial-draft:" <> env.draft_uuid batch.id ordinal;
    status = DraftStatus.pending;
    attempts = 0;
    created_at = created_at;
    next_attempt_at = none;
  }

  -- The drafts with the ordinals from one on.
  unfoldable pub drafts_from : InvoiceBatch → ℕ → ℕ → ℕ → List InvoiceDraft
  drafts_from batch created_at ordinal zero = []
  drafts_from batch created_at ordinal (suc n) =
      build_draft batch created_at ordinal ∷ drafts_from batch created_at (suc ordinal) n

  unfoldable pub build_invoice_drafts : InvoiceBatch → ℕ → List InvoiceDraft
  build_invoice_drafts batch created_at = drafts_from batch created_at 0 batch.target_count

  unfoldable pub schedule_trial : Datetime → Action W TrialRun
  schedule_trial start_at db w =
      let (counts, w₁) = env.counts w in
      elim (build_schedule start_at counts) [
        | err error ↦ (err error, db, w₁)
        | ok schedule ↦
            let (run_id, w₂) = env.uuid4 w₁ in
            transact
              (create env.batch_uuid run_id
                (record { start_at = as_utc start_at; schedule = schedule }))
              db w₂
      ]

  unfoldable pub start : Option Datetime → Action W TrialRun
  start (some start_at) =
      if service.live_operations_enabled
      then schedule_trial start_at
      else raise (live_operations_disabled "trial_start")
  start none =
      if service.live_operations_enabled
      then (read_clock env.clock >>= λ now. schedule_trial (aware now))
      else raise (live_operations_disabled "trial_start")

  unfoldable pub note_created : InvoiceDraft → ProviderInvoice → ℕ → Action W (Unit {0})
  note_created draft invoice now =
      transact (mark_created (record { draft_id = draft.id; invoice_id = invoice.id; at = now }))

  unfoldable pub note_retry : InvoiceDraft → String → ℕ → Action W (Unit {0})
  note_retry draft code now = do
    transact (
        retry_draft (record { draft_id = draft.id; error_code = code; at = now })
          (draft_backoff service draft.attempts) service.invoice_max_attempts)
    pure tt

  unfoldable pub note_failed : InvoiceDraft → String → ℕ → Action W (Unit {0})
  note_failed draft code now =
      transact (mark_draft_failed (record { draft_id = draft.id; error_code = code; at = now }))

  unfoldable pub note_unknown : InvoiceDraft → String → ℕ → Action W (Unit {0})
  note_unknown draft code now =
      transact (unknown_result (record { draft_id = draft.id; error_code = code; at = now }))

  -- Whether the answer of the lookup settles the draft.
  unfoldable pub settle_found : InvoiceDraft → ℕ → Result (Option ProviderInvoice) → Action W Bool
  settle_found draft now (ok (some invoice)) = note_created draft invoice now >> pure true
  settle_found draft now (ok none) = pure false
  settle_found draft now (err (provider e)) =
      if is_transient e
      then (note_retry draft (class_name e) now >> pure true)
      else if is_permanent e
      then (note_failed draft (class_name e) now >> pure true)
      else raise (provider e)
  settle_found draft now (err e) = raise e

  unfoldable pub settle_attempted_draft : InvoiceDraft → ℕ → Action W Bool
  settle_attempted_draft draft now = do
    found ← attempt (call env.meanwhile (env.find_invoice draft.tag))
    settle_found draft now found

  unfoldable pub settle_created : InvoiceDraft → ℕ → Result ProviderInvoice → Action W (Unit {0})
  settle_created draft now (ok invoice) = note_created draft invoice now
  settle_created draft now (err (provider e)) =
      if is_timeout e
      then note_unknown draft (class_name e) now
      else if is_transient e
      then note_retry draft (class_name e) now
      else if is_permanent e
      then note_failed draft (class_name e) now
      else raise (provider e)
  settle_created draft now (err e) = raise e

  unfoldable pub create_at_provider : InvoiceDraft → ℕ → Action W (Unit {0})
  create_at_provider draft now = do
    answer ← attempt (call env.meanwhile (env.create_invoice draft))
    settle_created draft now answer

  unfoldable pub issue_attempted : InvoiceDraft → ℕ → Action W (Unit {0})
  issue_attempted draft now = do
    done ← settle_attempted_draft draft now
    if done then pure tt else create_at_provider draft now

  unfoldable pub issue_draft : InvoiceDraft → ℕ → Action W (Unit {0})
  issue_draft draft now =
      if ltb 0 draft.attempts then issue_attempted draft now else create_at_provider draft now

  unfoldable pub issue_all : List InvoiceDraft → ℕ → Action W (Unit {0})
  issue_all [] now = pure tt
  issue_all (draft ∷ drafts) now = issue_draft draft now >> issue_all drafts now

  unfoldable pub tick_batch : Option InvoiceBatch → ℕ → Action W TrialTickResult
  tick_batch none now = pure no_batch
  tick_batch (some batch) now = do
    transact (save batch.id (build_invoice_drafts batch now))
    (λ db w. issue_all (pending_drafts env.sql batch.id now db) now db w)
    status ← transact (settle batch.id now)
    pure (tick_result status)

  unfoldable pub tick_live : Action W TrialTickResult
  tick_live = do
    now ← read_clock env.clock
    batch ← (λ db w.
        transact
          (claim_due_batch env.sql (env.locked w) (record {
            now = now;
            lease_until = now + seconds service.batch_lease_seconds;
            max_attempts = service.batch_max_attempts;
          }))
          db w)
    tick_batch batch now

  unfoldable pub tick : Action W TrialTickResult
  tick = if service.live_operations_enabled then tick_live else pure live_disabled
