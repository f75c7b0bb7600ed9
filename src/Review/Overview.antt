-- ===== src/Review/Overview.antt =====
-- persistence/review_store.py: the counts and the sums of `overview`.
use starkbank_backend_challe.Base.{
  ℕ, suc, Bool, true, false, ◌&&◌, Option, none, some, List, [], ◌∷◌, String, ◌==◌, if◌then◌else◌,
  select_where,
}
use starkbank_backend_challe.Base.Int.{ℤ, pos, ◌+ℤ◌}
use starkbank_backend_challe.Domain.Status.{TransferStatus}
use starkbank_backend_challe.Domain.Values.{
  batch_status_value, draft_status_value, transfer_status_value, outcome_value,
}
use starkbank_backend_challe.Schema.{Database, InvoiceBatchRow, InvoiceDraftRow, TransferJobRow}
use starkbank_backend_challe.Review.Views.{drafts_and_batches, jobs_and_batches}
use starkbank_backend_challe.Review.Filters.{event_of_trial}
use starkbank_backend_challe.Review.Payloads.{TrialPayload}

-- `{str(row[0]): int(row[1]) …}` of a GROUP BY
abbrev pub Counts : Type 0
Counts = List (String × ℕ)

pub record OverviewCounts : Type 0 where
  pub batches : Counts
  pub invoices : Counts
  pub webhook_events : Counts
  pub transfers : Counts

pub record TransferTotals : Type 0 where
  pub amount : ℤ
  pub fee : ℤ
  pub net_amount : ℤ

-- The constant `schedule` of the overview is left out.
pub record Overview : Type 0 where
  pub generated_at : String
  pub trial : Option TrialPayload
  pub counts : OverviewCounts
  pub transfer_totals_cents : TransferTotals

-- One more row of a group.
unfoldable pub count_in : String → Counts → Counts
count_in value [] = (value, 1) ∷ []
count_in value ((v, n) ∷ counts) =
    let rest = count_in value counts in if v == value then (v, suc n) ∷ counts else (v, n) ∷ rest

-- SELECT column, count(*) … GROUP BY column. The order of the groups is lost in the object.
unfoldable pub grouped : {A : Type 0} → (A → String) → List A → Counts
grouped column [] = []
grouped column (x ∷ xs) = count_in (column x) (grouped column xs)

-- coalesce(sum(column), 0)
unfoldable pub sum_of : {A : Type 0} → (A → ℤ) → List A → ℤ
sum_of column [] = pos 0
sum_of column (x ∷ xs) = column x +ℤ sum_of column xs

-- `status.in_(("succeeded", "permanent_failure"))`
abbrev pub is_finished : TransferStatus → Bool
is_finished TransferStatus.succeeded = true
is_finished TransferStatus.permanent_failure = true
is_finished _ = false

-- The finished jobs of a trial.
unfoldable pub finished_jobs :
    Database → Option String → List ((TransferJobRow × InvoiceDraftRow) × InvoiceBatchRow)
finished_jobs db none = []
finished_jobs db (some trial_id) =
    select_where
      (λ (p : (TransferJobRow × InvoiceDraftRow) × InvoiceBatchRow).
        is_finished p.0.0.status && p.1.run_id == trial_id)
      (jobs_and_batches db)

unfoldable pub transfer_totals : Database → Option String → TransferTotals
transfer_totals db trial_id = record {
  amount = sum_of (λ p. p.0.0.amount) (finished_jobs db trial_id);
  fee = sum_of (λ p. p.0.0.fee) (finished_jobs db trial_id);
  net_amount = sum_of (λ p. p.0.0.net_amount) (finished_jobs db trial_id);
}

-- `_counts`
unfoldable pub overview_counts : Database → Option String → OverviewCounts
overview_counts db none = record {
  batches = [];
  invoices = [];
  webhook_events = [];
  transfers = [];
}
overview_counts db (some trial_id) = record {
  batches =
      grouped (λ r. batch_status_value r.status)
        (select_where (λ r. r.run_id == trial_id) db.invoice_batches);
  invoices =
      grouped (λ (p : InvoiceDraftRow × InvoiceBatchRow). draft_status_value p.0.status)
        (select_where (λ p. p.1.run_id == trial_id) (drafts_and_batches db));
  webhook_events =
      grouped (λ r. outcome_value r.outcome)
        (select_where (event_of_trial db trial_id) db.webhook_events);
  transfers =
      grouped
        (λ (p : (TransferJobRow × InvoiceDraftRow) × InvoiceBatchRow).
          transfer_status_value p.0.0.status)
        (select_where (λ p. p.1.run_id == trial_id) (jobs_and_batches db));
}
