-- ===== src/Review/Listings.antt =====
-- persistence/review_store.py: the listings, followed from page to page.
use starkbank_backend_challe.Base.{
  ℕ, ◌<◌, ◌≡◌, true, Option, none, some, List, [], ◌∷◌, map, String, length, arith, holds,
  select_where, is_unique, count_where,
}
use native.Mathlib.Nat.{ℕ_set}
use starkbank_backend_challe.Base.Keyset.{NewestFirst}
use starkbank_backend_challe.Base.Texts.{String_set}
use starkbank_backend_challe.Base.Newest.{select_where-IsDistinct}
use starkbank_backend_challe.Domain.Errors.{ok}
use starkbank_backend_challe.Schema.{
  Database, IsConsistent, TrialRunRow, InvoiceBatchRow, InvoiceDraftRow, WebhookEventRow,
  TransferJobRow, trial_runs_constraints, invoice_batches_constraints, invoice_drafts_constraints,
  webhook_events_constraints, transfer_jobs_constraints,
}
use starkbank_backend_challe.Review.Cursor.{Codec, IsCodec}
use starkbank_backend_challe.Review.Page.{ReviewQuery}
use starkbank_backend_challe.Review.Views.{
  BatchView, InvoiceView, TransferView, batch_views, invoice_view, invoice_views, transfer_view,
  transfer_views, drafts_and_batches, batch_of,
}
use starkbank_backend_challe.Review.Filters.{
  trial_fits, batch_fits, invoice_fits, transfer_fits, has_transfer_filters, event_fits, fits_time,
}
use starkbank_backend_challe.Review.Payloads.{
  trial_payload, batch_payload, invoice_payload, transfer_payload, event_payload,
}
use starkbank_backend_challe.Review.Store.{
  trials, batches, invoices, transfers, events, listed_trials, listed_batches, listed_invoices,
  listed_transfers, listed_events, transfers_total,
}
use starkbank_backend_challe.Review.Distinct.{
  AtMostOne, no_row, DistinctBy, DistinctBy-Pairwise, is_unique-DistinctBy, select_where-AtMostOne,
  DistinctBy-map, DistinctBy-inner_join, DistinctBy-outer_join,
}
use starkbank_backend_challe.Review.Walk.{follow, follow_limit_lem}

TrialRunRow_set : IsSet TrialRunRow
TrialRunRow_set = hlevel (String_set, ℕ_set)

BatchView_set : IsSet BatchView
BatchView_set = hlevel (String_set, ℕ_set)

InvoiceView_set : IsSet InvoiceView
InvoiceView_set = hlevel (String_set, ℕ_set)

TransferView_set : IsSet TransferView
TransferView_set = hlevel (String_set, ℕ_set)

WebhookEventRow_set : IsSet WebhookEventRow
WebhookEventRow_set = hlevel (String_set, ℕ_set)

-- The constraints that the listings need.
module _ (db : Database) (consistent : IsConsistent db) where
  run_ids : is_unique (λ r. some r.id) db.trial_runs ≡ true
  unfolding trial_runs_constraints
  run_ids = ground (arith, consistent.trial_runs_lem)

  batch_ids : is_unique (λ r. some r.id) db.invoice_batches ≡ true
  unfolding invoice_batches_constraints
  batch_ids = ground (arith, consistent.invoice_batches_lem)

  draft_ids : is_unique (λ r. some r.id) db.invoice_drafts ≡ true
  unfolding invoice_drafts_constraints
  draft_ids = ground (arith, consistent.invoice_drafts_lem)

  draft_invoices : is_unique (λ r. r.provider_invoice_id) db.invoice_drafts ≡ true
  unfolding invoice_drafts_constraints
  draft_invoices = ground (arith, consistent.invoice_drafts_lem)

  job_ids : is_unique (λ r. some r.id) db.transfer_jobs ≡ true
  unfolding transfer_jobs_constraints
  job_ids = ground (arith, consistent.transfer_jobs_lem)

  event_ids : is_unique (λ r. some r.id) db.webhook_events ≡ true
  unfolding webhook_events_constraints
  event_ids = consistent.webhook_events_lem

  batch_views-DistinctBy : DistinctBy (λ (v : BatchView). v.batch.id) (batch_views db)
  unfolding batch_views
  batch_views-DistinctBy =
      DistinctBy-map (λ (v : BatchView). v.batch.id) _ _
        (DistinctBy-inner_join _ db.trial_runs (λ b. b.id)
          (λ b. select_where-AtMostOne (λ r. some r.id) b.run_id db.trial_runs run_ids)
          db.invoice_batches (is_unique-DistinctBy (λ b. b.id) db.invoice_batches batch_ids))

  invoice_views-DistinctBy : DistinctBy (λ (v : InvoiceView). v.draft.id) (invoice_views db)
  unfolding invoice_views invoice_view drafts_and_batches
  invoice_views-DistinctBy =
      DistinctBy-map (λ (v : InvoiceView). v.draft.id) (invoice_view db) _
        (DistinctBy-inner_join _ db.invoice_batches (λ d. d.id)
          (λ d. select_where-AtMostOne (λ b. some b.id) d.batch_id db.invoice_batches batch_ids)
          db.invoice_drafts (is_unique-DistinctBy (λ d. d.id) db.invoice_drafts draft_ids))

  one_batch_of :
      (p : TransferJobRow × Option InvoiceDraftRow)
      → AtMostOne (select_where (batch_of p) db.invoice_batches)
  one_batch_of (job, none) = nothing db.invoice_batches
    where
      nothing : (rows : List InvoiceBatchRow) → AtMostOne (select_where (batch_of (job, none)) rows)
      nothing [] = no_row
      nothing (x ∷ rows) = nothing rows
  one_batch_of (job, some d) =
      select_where-AtMostOne (λ b. some b.id) d.batch_id db.invoice_batches batch_ids

  transfer_views-DistinctBy : DistinctBy (λ (v : TransferView). v.job.id) (transfer_views db)
  unfolding transfer_views transfer_view
  transfer_views-DistinctBy =
      DistinctBy-map (λ (v : TransferView). v.job.id) transfer_view _
        (DistinctBy-outer_join batch_of db.invoice_batches
          (λ (p : TransferJobRow × Option InvoiceDraftRow). p.0.id) one_batch_of _
          (DistinctBy-outer_join
            (λ (j : TransferJobRow) (d : InvoiceDraftRow). holds d.provider_invoice_id j.invoice_id)
            db.invoice_drafts (λ j. j.id)
            (λ j.
              select_where-AtMostOne (λ d. d.provider_invoice_id) j.invoice_id db.invoice_drafts
                draft_invoices)
            db.transfer_jobs (is_unique-DistinctBy (λ j. j.id) db.transfer_jobs job_ids)))

  module _ (codec : Codec) (laws : IsCodec codec) (sql : NewestFirst) (smoke_run_id : String)
      (query : ReviewQuery) (positive : 0 < query.limit) (fuel : ℕ) where
    -- On a database whose constraints hold, with a limit of at least one, a client that asks for
    -- the first page of the trial runs that fit a query and then for the page of each
    -- `next_cursor`, for more answers at most than rows fit, is told the end and has then got the
    -- runs, each row that fits once and no other, ordered by the instant of creation and then by
    -- the id, both descending.
    pub follow-trials :
        length (listed_trials smoke_run_id db query) < fuel
        → follow
            (λ value. trials codec sql smoke_run_id db (record query { cursor = value }))
            fuel
            none
          ≡ ok (
              map (trial_payload codec) (
                sql.sort TrialRunRow
                  (λ r. r.created_at)
                  (λ r. r.id)
                  (listed_trials smoke_run_id db query)))
    unfolding trials listed_trials trial_fits fits_time
    follow-trials enough =
        follow_limit_lem codec sql (λ r. r.created_at) (λ r. r.id) (trial_payload codec) _
          (count_where (trial_fits smoke_run_id query) db.trial_runs) laws TrialRunRow_set
          (select_where-IsDistinct sql (λ r. r.created_at) (λ r. r.id) _ db.trial_runs
            (DistinctBy-Pairwise (λ r. r.id) db.trial_runs
              (is_unique-DistinctBy (λ r. r.id) db.trial_runs run_ids)))
          query.limit fuel positive enough

    -- On a database whose constraints hold, with a limit of at least one, a client that asks for
    -- the first page of the batches that fit a query and then for the page of each `next_cursor`,
    -- for more answers at most than rows fit, is told the end and has then got the batches, joined
    -- with their runs, each row that fits once and no other, ordered by the instant they are due
    -- and then by the id, both descending.
    pub follow-batches :
        length (listed_batches smoke_run_id db query) < fuel
        → follow
            (λ value. batches codec sql smoke_run_id db (record query { cursor = value }))
            fuel
            none
          ≡ ok (
              map (batch_payload codec) (
                sql.sort BatchView
                  (λ r. r.batch.scheduled_at)
                  (λ r. r.batch.id)
                  (listed_batches smoke_run_id db query)))
    unfolding batches listed_batches batch_fits fits_time
    follow-batches enough =
        follow_limit_lem codec sql (λ r. r.batch.scheduled_at) (λ r. r.batch.id)
          (batch_payload codec) _ (count_where (batch_fits smoke_run_id query) db.invoice_batches)
          laws BatchView_set
          (select_where-IsDistinct sql (λ r. r.batch.scheduled_at) (λ r. r.batch.id) _
            (batch_views db)
            (DistinctBy-Pairwise (λ r. r.batch.id) (batch_views db) batch_views-DistinctBy))
          query.limit fuel positive enough

    -- On a database whose constraints hold, with a limit of at least one, a client that asks for
    -- the first page of the invoices that fit a query and then for the page of each `next_cursor`,
    -- for more answers at most than rows fit, is told the end and has then got the drafts, joined
    -- with their batches and with the last event for their invoice, each row that fits once and no
    -- other, ordered by the instant of creation and then by the id, both descending.
    pub follow-invoices :
        length (listed_invoices smoke_run_id db query) < fuel
        → follow
            (λ value. invoices codec sql smoke_run_id db (record query { cursor = value }))
            fuel
            none
          ≡ ok (
              map (invoice_payload codec) (
                sql.sort InvoiceView
                  (λ r. r.draft.created_at)
                  (λ r. r.draft.id)
                  (listed_invoices smoke_run_id db query)))
    unfolding invoices listed_invoices invoice_fits fits_time
    follow-invoices enough =
        follow_limit_lem codec sql (λ r. r.draft.created_at) (λ r. r.draft.id)
          (invoice_payload codec) _
          (count_where (invoice_fits smoke_run_id db query) (invoice_views db)) laws InvoiceView_set
          (select_where-IsDistinct sql (λ r. r.draft.created_at) (λ r. r.draft.id) _
            (invoice_views db)
            (DistinctBy-Pairwise (λ r. r.draft.id) (invoice_views db) invoice_views-DistinctBy))
          query.limit fuel positive enough

    -- On a database whose constraints hold, with a limit of at least one, a client that asks for
    -- the first page of the transfers that fit a query and then for the page of each
    -- `next_cursor`, for more answers at most than rows fit, is told the end and has then got the
    -- jobs, joined with the draft and the batch of their invoice where there are any, each row
    -- that fits once and no other, ordered by the instant of creation and then by the id, both
    -- descending.
    pub follow-transfers :
        length (listed_transfers smoke_run_id db query) < fuel
        → follow
            (λ value. transfers codec sql smoke_run_id db (record query { cursor = value }))
            fuel
            none
          ≡ ok (
              map (transfer_payload codec) (
                sql.sort TransferView
                  (λ r. r.job.created_at)
                  (λ r. r.job.id)
                  (listed_transfers smoke_run_id db query)))
    unfolding transfers listed_transfers transfer_fits fits_time transfers_total
        has_transfer_filters
    follow-transfers enough =
        follow_limit_lem codec sql (λ r. r.job.created_at) (λ r. r.job.id) (transfer_payload codec)
          _ (transfers_total smoke_run_id db query) laws TransferView_set
          (select_where-IsDistinct sql (λ r. r.job.created_at) (λ r. r.job.id) _ (transfer_views db)
            (DistinctBy-Pairwise (λ r. r.job.id) (transfer_views db) transfer_views-DistinctBy))
          query.limit fuel positive enough

    -- On a database whose constraints hold, with a limit of at least one, a client that asks for
    -- the first page of the webhook events that fit a query and then for the page of each
    -- `next_cursor`, for more answers at most than rows fit, is told the end and has then got the
    -- events, each row that fits once and no other, ordered by the instant of receipt and then by
    -- the id, both descending.
    pub follow-events :
        length (listed_events smoke_run_id db query) < fuel
        → follow
            (λ value. events codec sql smoke_run_id db (record query { cursor = value }))
            fuel
            none
          ≡ ok (
              map (event_payload codec) (
                sql.sort WebhookEventRow
                  (λ r. r.received_at)
                  (λ r. r.id)
                  (listed_events smoke_run_id db query)))
    unfolding events listed_events event_fits fits_time
    follow-events enough =
        follow_limit_lem codec sql (λ r. r.received_at) (λ r. r.id) (event_payload codec) _
          (count_where (event_fits db query) db.webhook_events) laws WebhookEventRow_set
          (select_where-IsDistinct sql (λ r. r.received_at) (λ r. r.id) _ db.webhook_events
            (DistinctBy-Pairwise (λ r. r.id) db.webhook_events
              (is_unique-DistinctBy (λ r. r.id) db.webhook_events event_ids)))
          query.limit fuel positive enough
