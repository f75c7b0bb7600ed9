-- ===== src/TrialStore/Report.antt =====
-- persistence/trial_store.py: `report`, which only reads. The groups of a count come in the order of
-- their status, by the collation of the database.
use starkbank_backend_challe.Base.{
  ℕ, suc, ◌+◌, ◌≡◌, refl, Bool, true, false, not, ◌&&◌, Option, none, some, List, [], ◌∷◌, map,
  String, ◌==◌, head?, length, select_where, min, arith, if◌then◌else◌,
}
use starkbank_backend_challe.Base.Keyset.{Collation, NewestFirst}
use starkbank_backend_challe.Domain.Status.{TrialStatus, BatchStatus}
use starkbank_backend_challe.Domain.Values.{
  batch_status_value, draft_status_value, transfer_status_value, outcome_value,
}
use starkbank_backend_challe.Review.Views.{drafts_and_batches}
use starkbank_backend_challe.Schema.{Database, TrialRunRow, InvoiceBatchRow, InvoiceDraftRow}

pub record StatusCount : Type 0 where
  pub status : String
  pub count : ℕ

pub record TrialSummary : Type 0 where
  pub id : String
  pub status : TrialStatus
  pub started_at : ℕ
  pub ends_at : ℕ
  pub next_batch_at : Option ℕ

pub record TrialReport : Type 0 where
  pub trial : Option TrialSummary
  pub batches : List StatusCount
  pub invoices : List StatusCount
  pub webhook_events : List StatusCount
  pub transfers : List StatusCount

-- One more row with the status.
unfoldable pub count_status : Collation → String → List StatusCount → List StatusCount
count_status c status [] = record { status = status; count = 1 } ∷ []
count_status c status (first ∷ counts) =
    let rest = count_status c status counts in
    if status == first.status
    then record { status = status; count = suc first.count } ∷ counts
    else if c.before status first.status
    then record { status = status; count = 1 } ∷ first ∷ counts
    else first ∷ rest

-- SELECT column, count(*) … GROUP BY column ORDER BY column
unfoldable pub status_counts : {A : Type 0} → Collation → (A → String) → List A → List StatusCount
status_counts c column [] = []
status_counts c column (row ∷ rows) = count_status c (column row) (status_counts c column rows)

-- min(column)
unfoldable pub earliest : List ℕ → Option ℕ
earliest [] = none
earliest (at ∷ ats) = elim (earliest ats) [ none ↦ some at | some other ↦ some (min at other) ]

unfoldable pub is_ended_batch : BatchStatus → Bool
is_ended_batch BatchStatus.completed = true
is_ended_batch BatchStatus.degraded = true
is_ended_batch _ = false

unfoldable pub next_batch_at : String → Database → Option ℕ
next_batch_at run_id db = earliest (
    map (λ r. r.scheduled_at)
      (select_where (λ r. r.run_id == run_id && not (is_ended_batch r.status)) db.invoice_batches))

unfoldable pub trial_summary : Database → TrialRunRow → TrialSummary
trial_summary db trial = record {
  id = trial.id;
  status = trial.status;
  started_at = trial.started_at;
  ends_at = trial.ends_at;
  next_batch_at = next_batch_at trial.id db;
}

module _ (sql : NewestFirst) (smoke_run_id : String) (db : Database) where
  unfoldable pub report_of : Option TrialRunRow → TrialReport
  report_of none = record {
    trial = none;
    batches = [];
    invoices = [];
    webhook_events = status_counts sql.collation (λ r. outcome_value r.outcome) db.webhook_events;
    transfers = status_counts sql.collation (λ r. transfer_status_value r.status) db.transfer_jobs;
  }
  report_of (some trial) = record {
    trial = some (trial_summary db trial);
    batches =
        status_counts sql.collation (λ r. batch_status_value r.status)
          (select_where (λ r. r.run_id == trial.id) db.invoice_batches);
    invoices =
        status_counts sql.collation
          (λ (p : InvoiceDraftRow × InvoiceBatchRow). draft_status_value p.0.status)
          (select_where (λ p. p.1.run_id == trial.id) (drafts_and_batches db));
    webhook_events = status_counts sql.collation (λ r. outcome_value r.outcome) db.webhook_events;
    transfers = status_counts sql.collation (λ r. transfer_status_value r.status) db.transfer_jobs;
  }

  -- Runs that were created at one instant come in any order.
  unfoldable pub report : TrialReport
  report = report_of (
      head? (
        sql.sort TrialRunRow (λ r. r.created_at) (λ r. "")
          (select_where (λ r. not (r.id == smoke_run_id)) db.trial_runs)))

abbrev total_of : List StatusCount → ℕ
total_of [] = 0
total_of (first ∷ counts) = first.count + total_of counts

total_of-count_status :
    (c : Collation) (status : String) (counts : List StatusCount)
    → total_of (count_status c status counts) ≡ suc (total_of counts)
unfolding count_status
total_of-count_status c status [] = refl
total_of-count_status c status (first ∷ counts) =
    ground (arith, total_of-count_status c status counts)

-- The counts of a report add up to the rows that were counted.
total_of-status_counts :
    {A : Type 0} (c : Collation) (column : A → String) (rows : List A)
    → total_of (status_counts c column rows) ≡ length rows
unfolding status_counts
total_of-status_counts c column [] = refl
total_of-status_counts c column (row ∷ rows) =
    rw
      (
        status_counts,
        total_of-count_status c (column row) (status_counts c column rows),
        total_of-status_counts c column rows,
      )
      refl
