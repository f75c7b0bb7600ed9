-- ===== src/InvoiceStore.antt =====
-- persistence/invoice_store.py: the drafts of a batch, the owners of their invoices, and the
-- settling of a batch and its run. Each method is one transaction. A missing `now` is the caller's
-- clock reading.
pub mod Saving
pub mod Settling
pub mod Binding
use starkbank_backend_challe.Base.{
  ℕ, suc, ◌+◌, Bool, true, false, not, ◌&&◌, ◌||◌, Option, none, some, List, [], ◌∷◌, ◌++◌, map,
  String, ◌==◌, leb, ltb, eqb, take, holds, is_none, if◌then◌else◌, select_where, update_where,
  first_where, exists_where, count_where,
}
use starkbank_backend_challe.Base.Select.{OrderBy}
use starkbank_backend_challe.Domain.Errors.{
  Error, Result, ok, err, integrity, no_result_found, invoice_ownership_conflict,
}
use starkbank_backend_challe.Domain.Models.{
  InvoiceDraft, ProviderInvoice, DraftCreated, DraftFailure, InvoiceReconciliation,
}
use starkbank_backend_challe.Domain.Status.{
  TrialStatus, BatchStatus, DraftStatus, is_pending_draft, is_unknown_draft, is_created_draft,
  is_failed_draft, is_completed, is_degraded,
}
use starkbank_backend_challe.Schema.{
  Database, InvoiceDraftRow, OwnedInvoiceRow, InvoiceBatchRow, TrialRunRow,
}
use starkbank_backend_challe.Transaction.{
  Tx, Statement, pure, raise, gets, ◌>>=◌, ◌>>◌, write_invoice_drafts, write_owned_invoices,
  write_trial_runs, touch_owned_invoices, touch_invoice_batches, touch_invoice_drafts,
}

pub record DraftTransition : Type 0 where
  pub draft_id : String
  pub status : DraftStatus
  pub at : ℕ
  pub provider_invoice_id : Option String
  pub error_code : Option String
  pub next_attempt_at : ℕ
  pub reset_reconcile_attempts : Bool

-- `_draft`
unfoldable pub draft_of : InvoiceDraftRow → InvoiceDraft
draft_of r = record {
  id = r.id;
  batch_id = r.batch_id;
  ordinal = r.ordinal;
  payer_name = r.payer_name;
  payer_tax_id = r.payer_tax_id;
  amount = r.amount;
  tag = r.tag;
  status = r.status;
  attempts = r.attempts;
  created_at = r.created_at;
  next_attempt_at = some r.next_attempt_at;
}

abbrev or_else : Option ℕ → ℕ → ℕ
or_else none n = n
or_else (some m) n = m

unfoldable pub draft_row : InvoiceDraft → InvoiceDraftRow
draft_row draft = record {
  id = draft.id;
  batch_id = draft.batch_id;
  ordinal = draft.ordinal;
  payer_name = draft.payer_name;
  payer_tax_id = draft.payer_tax_id;
  amount = draft.amount;
  tag = draft.tag;
  status = draft.status;
  provider_invoice_id = none;
  attempts = draft.attempts;
  reconcile_attempts = 0;
  last_error_code = none;
  created_at = draft.created_at;
  updated_at = draft.created_at;
  next_attempt_at = or_else draft.next_attempt_at draft.created_at;
}

unfoldable pub trial_owner : InvoiceDraftRow → OwnedInvoiceRow
trial_owner r = record {
  tag = r.tag;
  provider_invoice_id = none;
  source = "trial";
  draft_id = some r.id;
  created_at = r.created_at;
  updated_at = r.updated_at;
}

-- The drafts that the batch does not have yet.
unfoldable pub new_rows : String → List InvoiceDraft → Database → List InvoiceDraftRow
new_rows batch_id drafts db = map draft_row (
    select_where
      (λ draft.
        not (exists_where (λ r. r.batch_id == batch_id && r.id == draft.id) db.invoice_drafts))
      drafts)

unfoldable pub insert_rows : List InvoiceDraftRow → Statement
insert_rows [] = pure tt
insert_rows rows = do
  write_invoice_drafts (λ table. table ++ rows)
  write_owned_invoices (λ table. table ++ map trial_owner rows)

unfoldable pub save : String → List InvoiceDraft → Statement
save batch_id drafts = do rows ← gets (new_rows batch_id drafts); insert_rows rows

-- INSERT … ON CONFLICT (tag) DO NOTHING
unfoldable pub register_smoke : InvoiceDraft → ℕ → Statement
register_smoke draft now = do
  present ← gets (λ db. exists_where (λ r. r.tag == draft.tag) db.owned_invoices)
  if present
      then pure tt
      else write_owned_invoices (λ table.
        table
        ++ record {
          tag = draft.tag;
          provider_invoice_id = none;
          source = "smoke";
          draft_id = none;
          created_at = now;
          updated_at = now;
        }
          ∷ [])

-- `except IntegrityError as error: raise InvoiceOwnershipConflictError(…)`
unfoldable pub or_conflict : String → String → Statement → Statement
or_conflict tag provider_invoice_id m db = elim (m db) [
  | err integrity ↦ err (invoice_ownership_conflict tag provider_invoice_id)
  | other ↦ other
]

-- What follows from the invoice that the owner has now.
unfoldable pub bind_current : String → String → ℕ → Option OwnedInvoiceRow → Statement
bind_current tag provider_invoice_id now none =
    raise (invoice_ownership_conflict tag provider_invoice_id)
bind_current tag provider_invoice_id now (some owner) =
    if is_none owner.provider_invoice_id
    then or_conflict tag provider_invoice_id (
        write_owned_invoices (
          update_where (λ r. r.tag == tag)
            (λ r. record r { provider_invoice_id = some provider_invoice_id; updated_at = now })))
    else if holds owner.provider_invoice_id provider_invoice_id
    then touch_owned_invoices
        (update_where (λ r. r.tag == tag) (λ r. record r { updated_at = now }))
    else raise (invoice_ownership_conflict tag provider_invoice_id)

unfoldable pub bind_provider_invoice : String → String → ℕ → Statement
bind_provider_invoice tag provider_invoice_id now = do
  owner ← gets (λ db. first_where (λ r. r.tag == tag) db.owned_invoices)
  bind_current tag provider_invoice_id now owner

unfoldable pub pending_drafts : OrderBy → String → ℕ → Database → List InvoiceDraft
pending_drafts sql batch_id now db = map draft_of (
    sql.sort InvoiceDraftRow (λ r. r.ordinal)
      (select_where
        (λ r. r.batch_id == batch_id && is_pending_draft r.status && leb r.next_attempt_at now)
        db.invoice_drafts))

unfoldable pub unknown_drafts : OrderBy → ℕ → ℕ → Database → List InvoiceDraft
unknown_drafts sql now limit db = map draft_of (
    take limit (
      sql.sort InvoiceDraftRow (λ r. r.updated_at)
        (select_where (λ r. is_unknown_draft r.status && leb r.next_attempt_at now)
          db.invoice_drafts)))

unfoldable pub transitioned : DraftTransition → InvoiceDraftRow → InvoiceDraftRow
transitioned t r = record r {
  status = t.status;
  provider_invoice_id = t.provider_invoice_id;
  attempts = r.attempts + 1;
  last_error_code = t.error_code;
  next_attempt_at = t.next_attempt_at;
  reconcile_attempts = if t.reset_reconcile_attempts then 0 else r.reconcile_attempts;
  updated_at = t.at;
}

unfoldable pub transition : DraftTransition → Statement
transition t = do
  write_invoice_drafts (update_where (λ r. r.id == t.draft_id) (transitioned t))
  write_owned_invoices (
      update_where (λ r. holds r.draft_id t.draft_id)
        (λ r. record r { provider_invoice_id = t.provider_invoice_id; updated_at = t.at }))

unfoldable pub mark_created : DraftCreated → Statement
mark_created result = transition (record {
  draft_id = result.draft_id;
  status = DraftStatus.created;
  at = result.at;
  provider_invoice_id = some result.invoice_id;
  error_code = none;
  next_attempt_at = result.at;
  reset_reconcile_attempts = true;
})

-- The transition of `unknown_result` and of `failed`.
unfoldable pub failure : DraftStatus → DraftFailure → DraftTransition
failure status result = record {
  draft_id = result.draft_id;
  status = status;
  at = result.at;
  provider_invoice_id = none;
  error_code = some result.error_code;
  next_attempt_at = result.at;
  reset_reconcile_attempts = false;
}

unfoldable pub unknown_result : DraftFailure → Statement
unknown_result result = transition (failure DraftStatus.unknown result)

unfoldable pub mark_draft_failed : DraftFailure → Statement
mark_draft_failed result = transition (failure DraftStatus.failed result)

-- `scalar_one()`
unfoldable pub one_draft : String → Tx InvoiceDraftRow
one_draft id db = elim (first_where (λ r. r.id == id) db.invoice_drafts) [
  | none ↦ err no_result_found
  | some r ↦ ok (r, db)
]

unfoldable pub retried : DraftFailure → ℕ → ℕ → Bool → InvoiceDraftRow → InvoiceDraftRow
retried result delay attempts exhausted r = record r {
  status = if exhausted then DraftStatus.failed else DraftStatus.pending;
  provider_invoice_id = none;
  attempts = attempts;
  last_error_code = some (if exhausted then "retry_exhausted" else result.error_code);
  next_attempt_at = if exhausted then result.at else result.at + delay;
  updated_at = result.at;
}

-- `retry`: whether the draft will be tried again.
unfoldable pub retry_draft : DraftFailure → ℕ → ℕ → Tx Bool
retry_draft result delay max_attempts = do
  row ← one_draft result.draft_id
  write_invoice_drafts (
      update_where (λ r. r.id == result.draft_id)
        (retried result delay (row.attempts + 1) (leb max_attempts (row.attempts + 1))))
  pure (not (leb max_attempts (row.attempts + 1)))

-- The row after a lookup that found nothing; `released` is `next_status is PENDING`.
unfoldable pub not_found : ℕ → ℕ → ℕ → Bool → Bool → InvoiceDraftRow → InvoiceDraftRow
not_found now delay next_attempts released exhausted r = record r {
  status =
      if exhausted
      then DraftStatus.failed
      else if released
      then DraftStatus.pending
      else DraftStatus.unknown;
  reconcile_attempts = if released then 0 else next_attempts;
  last_error_code = some (if exhausted then "retry_exhausted" else "reconciliation_not_found");
  next_attempt_at = if exhausted then now else now + delay;
  updated_at = now;
}

unfoldable pub reconcile_missing :
    InvoiceDraft → ℕ → (max_attempts max_reconciliation_attempts delay : ℕ) → Statement
reconcile_missing draft now max_attempts max_reconciliation_attempts delay = do
  row ← one_draft draft.id
  let next_attempts = row.reconcile_attempts + 1
  let released = leb max_reconciliation_attempts next_attempts
  let exhausted = released && leb max_attempts draft.attempts
  touch_invoice_drafts
      (update_where (λ r. r.id == draft.id) (not_found now delay next_attempts released exhausted))

unfoldable pub reconcile :
    InvoiceReconciliation → (max_attempts max_reconciliation_attempts delay : ℕ) → Statement
reconcile result max_attempts max_reconciliation_attempts delay = elim result.provider_invoice [
  | some invoice ↦
      mark_created (record { draft_id = result.draft.id; invoice_id = invoice.id; at = result.at })
  | none ↦ reconcile_missing result.draft result.at max_attempts max_reconciliation_attempts delay
]

-- The drafts of a batch with a status.
unfoldable pub drafts_with : (DraftStatus → Bool) → String → Database → ℕ
drafts_with p batch_id db =
    count_where (λ r. r.batch_id == batch_id && p r.status) db.invoice_drafts

unfoldable pub settled_status : InvoiceBatchRow → Database → BatchStatus
settled_status batch db =
    if eqb (drafts_with is_created_draft batch.id db) batch.target_count
    then BatchStatus.completed
    else if ltb 0 (drafts_with is_failed_draft batch.id db)
    then BatchStatus.degraded
    else if ltb 0 (drafts_with is_unknown_draft batch.id db)
    then BatchStatus.reconciling
    else BatchStatus.scheduled

unfoldable pub settled : BatchStatus → ℕ → InvoiceBatchRow → InvoiceBatchRow
settled status now r = record r {
  status = status;
  lease_until = none;
  completed_at = if is_completed status then some now else none;
}

-- The batches of a run that are not completed.
unfoldable pub remaining : String → Database → ℕ
remaining run_id db =
    count_where (λ r. r.run_id == run_id && not (is_completed r.status)) db.invoice_batches

unfoldable pub degraded_run : TrialRunRow → TrialRunRow
degraded_run r = record r { status = TrialStatus.degraded; active_marker = none }

unfoldable pub completed_run : ℕ → TrialRunRow → TrialRunRow
completed_run now r = record r {
  status = TrialStatus.completed;
  active_marker = none;
  completed_at = some now;
}

unfoldable pub settle_run : String → BatchStatus → ℕ → Statement
settle_run run_id status now = do
  left ← gets (remaining run_id)
  if is_degraded status
      then write_trial_runs (update_where (λ r. r.id == run_id) degraded_run)
      else if eqb left 0
      then write_trial_runs (update_where (λ r. r.id == run_id) (completed_run now))
      else pure tt

-- `one()`
unfoldable pub one_batch : String → Tx InvoiceBatchRow
one_batch id db = elim (first_where (λ r. r.id == id) db.invoice_batches) [
  | none ↦ err no_result_found
  | some r ↦ ok (r, db)
]

unfoldable pub settle : String → ℕ → Tx BatchStatus
settle batch_id now = do
  batch ← one_batch batch_id
  status ← gets (settled_status batch)
  touch_invoice_batches (update_where (λ r. r.id == batch_id) (settled status now))
  settle_run batch.run_id status now
  pure status
