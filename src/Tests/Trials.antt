-- ===== src/Tests/Trials.antt =====
-- A trial: its schedule, its batches and the drafts of one.
use starkbank_backend_challe.Base.{
  ℕ, ◌<◌, ◌+◌, ◌≡◌, ◌≢◌, ◌⊎◌, refl, Bool, true, false, none, some, List, [], ◌∷◌, String, ◌==◌,
  arith, RowByRow, first_where, holds, length,
}
use starkbank_backend_challe.Base.Insertion.{insertion}
use starkbank_backend_challe.Domain.Errors.{ok, err, integrity}
use starkbank_backend_challe.Domain.Models.{
  ScheduleSlot, InvoiceDraft, ProviderInvoice, NewTrial, TrialRun, BatchClaim,
}
use starkbank_backend_challe.Domain.Status.{TrialStatus, BatchStatus, DraftStatus}
use starkbank_backend_challe.Domain.Time.{hours}
use starkbank_backend_challe.Schema.{
  Database, InvoiceBatchRow, OwnedInvoiceRow, trial_runs_constraints, invoice_batches_constraints,
  invoice_drafts_constraints, owned_invoices_constraints,
}
use starkbank_backend_challe.Schedule.{slots_from, are_valid_counts, build_schedule}
use starkbank_backend_challe.Schedule.Slots.{IsSlot, build_schedule_slots}
use starkbank_backend_challe.TrialStore.{
  run_row, batch_row, create, is_open, is_due_batch, lease_batch, claimed_batch, degraded_batch,
  degrade_run, take_batch, claim_due_batch,
}
use starkbank_backend_challe.TrialStore.Starting.{create_once}
use starkbank_backend_challe.TrialStore.Claiming.{claim_due_batch_exclusive}
use starkbank_backend_challe.InvoiceStore.{
  draft_row, trial_owner, new_rows, insert_rows, save, bind_current, or_conflict,
  bind_provider_invoice, drafts_with, settled_status, settled, remaining, degraded_run, settle_run,
  one_batch, settle,
}
use starkbank_backend_challe.InvoiceStore.Saving.{save_idempotent}
use starkbank_backend_challe.InvoiceStore.Settling.{RunSettles, settle-RunSettles}
use starkbank_backend_challe.InvoiceStore.Binding.{bind_provider_invoice-Owners}
use starkbank_backend_challe.TrialService.{TrialService, TrialEnv, issue_draft}
use starkbank_backend_challe.TrialService.Issuing.{IsIssued, issue_draft_found}
use starkbank_backend_challe.EventStore.Owners.{Owners}
use starkbank_backend_challe.Tests.Data.{store, owner_row}

abbrev counts : List ℕ
counts = 8 ∷ 9 ∷ 10 ∷ 11 ∷ 12 ∷ 8 ∷ 9 ∷ 10 ∷ []

abbrev third_slot : ScheduleSlot
third_slot = record { index = 2; scheduled_at = 100 + hours 6; target_count = 10 }

build_schedule_slots_example :
    (length (slots_from 100 0 counts) ≡ 8)
    × IsSlot 100 counts 2 third_slot
    × (third_slot.scheduled_at < 100 + hours 24)
unfolding build_schedule are_valid_counts slots_from
build_schedule_slots_example =
    build_schedule_slots 100 2 counts (slots_from 100 0 counts) third_slot refl refl

abbrev uuid5 : String → ℕ → String
uuid5 run_id index = run_id

abbrev pub trial : NewTrial
trial = record { start_at = 100; schedule = third_slot ∷ [] }

abbrev started : Database
started = record store {
  trial_runs = run_row "run" trial ∷ [];
  invoice_batches = batch_row uuid5 "run" 100 third_slot ∷ [];
}

abbrev run : TrialRun
run = record { id = "run"; status = TrialStatus.active; started_at = 100; ends_at = 100 + hours 24 }

create_once_example : create uuid5 "other" trial started ≡ err integrity
unfolding create run_row batch_row trial_runs_constraints invoice_batches_constraints
create_once_example = create_once uuid5 "run" "other" trial trial store started run refl

-- Two batches that are due, and one that has used up its attempts.
abbrev pub first_row : InvoiceBatchRow
first_row = record {
  id = "batch-1";
  run_id = "run";
  slot_index = 0;
  scheduled_at = 10;
  target_count = 8;
  status = BatchStatus.scheduled;
  lease_until = none;
  attempts = 0;
  created_at = 5;
  completed_at = none;
}

abbrev second_row : InvoiceBatchRow
second_row = record first_row { id = "batch-2"; slot_index = 1; scheduled_at = 11 }

abbrev spent_row : InvoiceBatchRow
spent_row = record first_row { attempts = 3 }

abbrev two_due : Database
two_due = record store { invoice_batches = first_row ∷ second_row ∷ [] }

abbrev batch_claim : BatchClaim
batch_claim = record { now = 20; lease_until = 50; max_attempts = 3 }

abbrev later_claim : BatchClaim
later_claim = record { now = 30; lease_until = 60; max_attempts = 3 }

abbrev one_leased : Database
one_leased = record store { invoice_batches = lease_batch batch_claim first_row ∷ second_row ∷ [] }

abbrev two_leased : Database
two_leased = record store {
  invoice_batches = lease_batch batch_claim first_row ∷ lease_batch later_claim second_row ∷ [];
}

abbrev no_batch_lock : InvoiceBatchRow → Bool
no_batch_lock r = false

claim_due_batch_exclusive_example :
    (claimed_batch later_claim second_row).id ≢ (claimed_batch batch_claim first_row).id
unfolding claim_due_batch take_batch is_due_batch is_open lease_batch
claim_due_batch_exclusive_example =
    claim_due_batch_exclusive insertion no_batch_lock no_batch_lock batch_claim later_claim two_due
      one_leased two_leased (claimed_batch batch_claim first_row)
      (claimed_batch later_claim second_row) refl (omega arith) refl

abbrev spent : Database
spent = record started { invoice_batches = spent_row ∷ [] }

abbrev given_up : Database
given_up = record started {
  trial_runs = degrade_run (run_row "run" trial) ∷ [];
  invoice_batches = degraded_batch 20 spent_row ∷ [];
}

abbrev pub draft : InvoiceDraft
draft = record {
  id = "draft-1";
  batch_id = "batch-1";
  ordinal = 0;
  payer_name = "Ana";
  payer_tax_id = "1";
  amount = 1500;
  tag = "trial-draft:1";
  status = DraftStatus.pending;
  attempts = 0;
  created_at = 20;
  next_attempt_at = none;
}

abbrev saved : Database
saved = record two_due {
  invoice_drafts = draft_row draft ∷ [];
  owned_invoices = owner_row ∷ trial_owner (draft_row draft) ∷ [];
}

save_idempotent_example : save "batch-1" (draft ∷ []) saved ≡ ok (tt, saved)
unfolding save new_rows insert_rows draft_row trial_owner invoice_drafts_constraints
    owned_invoices_constraints
save_idempotent_example = save_idempotent "batch-1" (draft ∷ []) two_due saved (refl, tt) refl

-- A run with one batch, whose one draft has failed.
abbrev failing : Database
failing = record started {
  invoice_batches = first_row ∷ [];
  invoice_drafts = record (draft_row draft) { status = DraftStatus.failed } ∷ [];
}

abbrev failed_run : Database
failed_run = record failing {
  trial_runs = degraded_run (run_row "run" trial) ∷ [];
  invoice_batches = settled BatchStatus.degraded 40 first_row ∷ [];
}

settle-RunSettles_example :
    RowByRow (RunSettles failed_run) failing.trial_runs failed_run.trial_runs
unfolding settle one_batch settled_status drafts_with settle_run remaining settled draft_row run_row
    degraded_run trial_runs_constraints
settle-RunSettles_example =
    settle-RunSettles "batch-1" 40 failing BatchStatus.degraded failed_run refl

abbrev bound_store : Database
bound_store = record store {
  owned_invoices =
      record owner_row { provider_invoice_id = some "invoice-3"; updated_at = 30 } ∷ [];
}

bind_provider_invoice-Owners_example :
    Owners store bound_store
    × ((owner : OwnedInvoiceRow) × (first_where
            (λ r. r.tag == "trial:draft-3")
            bound_store.owned_invoices
          ≡ some owner)
        × (holds owner.provider_invoice_id "invoice-3" ≡ true))
unfolding bind_provider_invoice bind_current or_conflict owned_invoices_constraints
bind_provider_invoice-Owners_example =
    bind_provider_invoice-Owners "trial:draft-3" "invoice-3" 30 store bound_store refl refl

abbrev service : TrialService
service = record {
  batch_lease_seconds = 300;
  live_operations_enabled = true;
  retry_base_seconds = 5;
  invoice_max_attempts = 5;
  invoice_reconciliation_max_attempts = 5;
  batch_max_attempts = 15;
}

abbrev issued : ProviderInvoice
issued = record { id = "invoice-9"; tag = "trial-draft:1" }

-- A provider that has the invoice, and would make another one.
abbrev env : TrialEnv ℕ
env = record {
  sql = insertion;
  clock = record { now = λ w. (w, w) };
  counts = λ w. (counts, w);
  uuid4 = λ w. ("run", w);
  batch_uuid = uuid5;
  draft_uuid = uuid5;
  payer_name = uuid5;
  payer_tax_id = uuid5;
  draft_amount = λ id n. 1000;
  create_invoice = λ draft w. (ok (record issued { id = "invoice-10" }), w + 1);
  find_invoice = λ tag w. (ok (some issued), w + 1);
  meanwhile = λ w db. db;
  locked = λ w. no_batch_lock;
}

issue_draft_found_example :
    ((db' : Database) × (issue_draft service env (record draft { attempts = 1 }) 60 saved 0
        ≡ (ok tt, db', 1))
      × IsIssued "draft-1" "invoice-9" 60 saved db')
    ⊎ (issue_draft service env (record draft { attempts = 1 }) 60 saved 0
        ≡ (err integrity, saved, 1))
issue_draft_found_example =
    issue_draft_found service env (record draft { attempts = 1 }) 60 saved 0 1 issued (omega arith)
      refl
