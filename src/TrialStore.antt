-- ===== src/TrialStore.antt =====
-- persistence/trial_store.py: the runs and the batches that are due. Each method is one transaction;
-- FOR UPDATE SKIP LOCKED is the argument `locked`, and `uuid5` is an argument too.
pub mod Starting
pub mod Claiming
pub mod Report
use starkbank_backend_challe.Base.{
  ℕ, ◌+◌, Bool, true, false, not, ◌&&◌, ◌||◌, Option, none, some, List, [], ◌∷◌, ◌++◌, map, String,
  ◌==◌, leb, ltb, reached, is_none, if◌then◌else◌, update_where, exists_where,
}
use starkbank_backend_challe.Base.Select.{OrderBy, first_by}
use starkbank_backend_challe.Domain.Errors.{Result, ok, err}
use starkbank_backend_challe.Domain.Models.{
  ScheduleSlot, NewTrial, TrialRun, BatchClaim, InvoiceBatch,
}
use starkbank_backend_challe.Domain.Status.{TrialStatus, BatchStatus, is_claimable, is_degraded}
use starkbank_backend_challe.Domain.Time.{hours}
use starkbank_backend_challe.Schema.{Database, TrialRunRow, InvoiceBatchRow}
use starkbank_backend_challe.Transaction.{
  Tx, Statement, pure, gets, ◌>>=◌, ◌>>◌, write_trial_runs, write_invoice_batches,
  touch_invoice_batches,
}

unfoldable pub run_row : String → NewTrial → TrialRunRow
run_row run_id command = record {
  id = run_id;
  status = TrialStatus.active;
  started_at = command.start_at;
  ends_at = command.start_at + hours 24;
  created_at = command.start_at;
  completed_at = none;
  active_marker = some 1;
}

unfoldable pub batch_row : (String → ℕ → String) → String → ℕ → ScheduleSlot → InvoiceBatchRow
batch_row uuid5 run_id start_at slot = record {
  id = uuid5 run_id slot.index;
  run_id = run_id;
  slot_index = slot.index;
  scheduled_at = slot.scheduled_at;
  target_count = slot.target_count;
  status = BatchStatus.scheduled;
  lease_until = none;
  attempts = 0;
  created_at = start_at;
  completed_at = none;
}

-- `run_id` is what `uuid4()` gives.
unfoldable pub create : (String → ℕ → String) → String → NewTrial → Tx TrialRun
create uuid5 run_id command = do
  write_trial_runs (λ rows. rows ++ run_row run_id command ∷ [])
  write_invoice_batches
      (λ rows. rows ++ map (batch_row uuid5 run_id command.start_at) command.schedule)
  pure (record {
    id = run_id;
    status = TrialStatus.active;
    started_at = command.start_at;
    ends_at = command.start_at + hours 24;
  })

-- A batch that is due, open and not leased.
unfoldable pub is_open : ℕ → InvoiceBatchRow → Bool
is_open now r =
    leb r.scheduled_at now
    && is_claimable r.status
    && (is_none r.lease_until || reached r.lease_until now)

unfoldable pub is_due_batch : BatchClaim → InvoiceBatchRow → Bool
is_due_batch c r = is_open c.now r && ltb r.attempts c.max_attempts

-- The WHERE of `_degrade_exhausted_batches`
unfoldable pub is_exhausted_batch : BatchClaim → InvoiceBatchRow → Bool
is_exhausted_batch c r = is_open c.now r && leb c.max_attempts r.attempts

unfoldable pub lease_batch : BatchClaim → InvoiceBatchRow → InvoiceBatchRow
lease_batch c r = record r {
  status = BatchStatus.issuing;
  lease_until = some c.lease_until;
  attempts = r.attempts + 1;
}

unfoldable pub claimed_batch : BatchClaim → InvoiceBatchRow → InvoiceBatch
claimed_batch c r = record {
  id = r.id;
  run_id = r.run_id;
  slot_index = r.slot_index;
  scheduled_at = r.scheduled_at;
  target_count = r.target_count;
  status = BatchStatus.issuing;
  lease_until = c.lease_until;
  attempts = r.attempts + 1;
}

unfoldable pub degraded_batch : ℕ → InvoiceBatchRow → InvoiceBatchRow
degraded_batch now r = record r {
  status = BatchStatus.degraded;
  lease_until = none;
  completed_at = some now;
}

-- The run has a degraded batch.
unfoldable pub has_degraded_batch : Database → TrialRunRow → Bool
has_degraded_batch db run =
    exists_where (λ b. b.run_id == run.id && is_degraded b.status) db.invoice_batches

unfoldable pub degrade_run : TrialRunRow → TrialRunRow
degrade_run r = record r { status = TrialStatus.degraded; active_marker = none }

unfoldable pub degrade_runs : Statement
degrade_runs = do
  chosen ← gets has_degraded_batch
  write_trial_runs (update_where chosen degrade_run)

unfoldable pub degrade_exhausted_batches : BatchClaim → Statement
degrade_exhausted_batches c = do
  found ← gets (λ db. exists_where (is_exhausted_batch c) db.invoice_batches)
  if found
      then (touch_invoice_batches (update_where (is_exhausted_batch c) (degraded_batch c.now))
          >> degrade_runs)
      else pure tt

unfoldable pub take_batch : BatchClaim → Option InvoiceBatchRow → Tx (Option InvoiceBatch)
take_batch c none = do degrade_exhausted_batches c; pure none
take_batch c (some r) = do
  touch_invoice_batches (update_where (λ x. x.id == r.id) (lease_batch c))
  pure (some (claimed_batch c r))

unfoldable pub claim_due_batch :
    OrderBy → (InvoiceBatchRow → Bool) → BatchClaim → Tx (Option InvoiceBatch)
claim_due_batch sql locked c = do
  row ← gets (λ db.
      first_by sql (λ r. r.scheduled_at) (λ r. is_due_batch c r && not (locked r))
        db.invoice_batches)
  take_batch c row
