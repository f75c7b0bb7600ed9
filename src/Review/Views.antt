-- ===== src/Review/Views.antt =====
-- persistence/review_store.py: the FROM part of each listing, the rows that its joins give.
use starkbank_backend_challe.Base.{
  ℕ, Bool, false, Option, none, some, List, [], ◌∷◌, ◌++◌, map, String, ◌==◌, leb, holds,
  if◌then◌else◌, select_where,
}
use starkbank_backend_challe.Domain.Status.{BatchStatus, TrialStatus}
use starkbank_backend_challe.Schema.{
  Database, TrialRunRow, InvoiceBatchRow, InvoiceDraftRow, WebhookEventRow, TransferJobRow,
}

module _ {A B : Type 0} (on : A → B → Bool) where
  -- JOIN
  abbrev pub inner_join : List A → List B → List (A × B)
  inner_join [] ys = []
  inner_join (x ∷ xs) ys = map (λ y. (x, y)) (select_where (on x) ys) ++ inner_join xs ys

  abbrev pub or_null : A → List B → List (A × Option B)
  or_null x [] = (x, none) ∷ []
  or_null x (y ∷ ys) = map (λ z. (x, some z)) (y ∷ ys)

  -- LEFT OUTER JOIN
  abbrev pub outer_join : List A → List B → List (A × Option B)
  outer_join [] ys = []
  outer_join (x ∷ xs) ys = or_null x (select_where (on x) ys) ++ outer_join xs ys

pub record BatchView : Type 0 where
  pub batch : InvoiceBatchRow
  pub trial_status : TrialStatus

pub record InvoiceView : Type 0 where
  pub draft : InvoiceDraftRow
  pub run_id : String
  pub batch_status : BatchStatus
  pub credited_at : Option ℕ

pub record TransferView : Type 0 where
  pub job : TransferJobRow
  pub batch_id : Option String
  pub run_id : Option String

-- `column = column` in SQL: false where the first is NULL or the second.
abbrev pub both_hold : Option String → Option String → Bool
both_hold none v = false
both_hold (some s) v = holds v s

unfoldable pub later_of : ℕ → Option ℕ → Option ℕ
later_of t none = some t
later_of t (some u) = some (if leb t u then u else t)

-- `max(received_at)`, NULL where no event fits
unfoldable pub max_received : (WebhookEventRow → Bool) → List WebhookEventRow → Option ℕ
max_received p [] = none
max_received p (e ∷ events) =
    let rest = max_received p events in if p e then later_of e.received_at rest else rest

unfoldable pub batch_views : Database → List BatchView
batch_views db =
    map (λ pair. record { batch = pair.0; trial_status = pair.1.status })
      (inner_join (λ (b : InvoiceBatchRow) (r : TrialRunRow). r.id == b.run_id) db.invoice_batches
        db.trial_runs)

-- `credited_at`
unfoldable pub credited_at_of : Database → InvoiceDraftRow → Option ℕ
credited_at_of db draft =
    max_received (λ e. both_hold draft.provider_invoice_id e.invoice_id) db.webhook_events

unfoldable pub invoice_view : Database → InvoiceDraftRow × InvoiceBatchRow → InvoiceView
invoice_view db (draft, batch) = record {
  draft = draft;
  run_id = batch.run_id;
  batch_status = batch.status;
  credited_at = credited_at_of db draft;
}

-- The drafts with their batches.
unfoldable pub drafts_and_batches : Database → List (InvoiceDraftRow × InvoiceBatchRow)
drafts_and_batches db =
    inner_join (λ (d : InvoiceDraftRow) (b : InvoiceBatchRow). b.id == d.batch_id) db.invoice_drafts
      db.invoice_batches

unfoldable pub invoice_views : Database → List InvoiceView
invoice_views db = map (invoice_view db) (drafts_and_batches db)

abbrev pub batch_of : TransferJobRow × Option InvoiceDraftRow → InvoiceBatchRow → Bool
batch_of (job, none) b = false
batch_of (job, some draft) b = b.id == draft.batch_id

unfoldable pub transfer_view :
    (TransferJobRow × Option InvoiceDraftRow) × Option InvoiceBatchRow → TransferView
transfer_view ((job, draft), batch) = record {
  job = job;
  batch_id = elim draft [ none ↦ none | some d ↦ some d.batch_id ];
  run_id = elim batch [ none ↦ none | some b ↦ some b.run_id ];
}

unfoldable pub transfer_views : Database → List TransferView
transfer_views db = map transfer_view (
    outer_join batch_of
      (outer_join
        (λ (j : TransferJobRow) (d : InvoiceDraftRow). holds d.provider_invoice_id j.invoice_id)
        db.transfer_jobs db.invoice_drafts)
      db.invoice_batches)

-- `job JOIN draft JOIN batch`: the jobs of invoices that drafts have.
unfoldable pub jobs_and_batches :
    Database → List ((TransferJobRow × InvoiceDraftRow) × InvoiceBatchRow)
jobs_and_batches db =
    inner_join
      (λ (p : TransferJobRow × InvoiceDraftRow) (b : InvoiceBatchRow). b.id == p.1.batch_id)
      (inner_join
        (λ (j : TransferJobRow) (d : InvoiceDraftRow). holds d.provider_invoice_id j.invoice_id)
        db.transfer_jobs db.invoice_drafts)
      db.invoice_batches
