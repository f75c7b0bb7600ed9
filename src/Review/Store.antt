-- ===== src/Review/Store.antt =====
-- persistence/review_store.py: the methods of `ReviewStore`. A statement and its count run on one
-- state of the database here; in the program another process may commit between the two.
use starkbank_backend_challe.Base.{
  ℕ, true, not, ◌&&◌, Option, none, some, List, String, ◌==◌, head?, length, if◌then◌else◌,
  select_where, first_where, count_where,
}
use starkbank_backend_challe.Base.Keyset.{NewestFirst}
use starkbank_backend_challe.Domain.Errors.{Result}
use starkbank_backend_challe.Schema.{Database, TrialRunRow, WebhookEventRow}
use starkbank_backend_challe.Review.Cursor.{Codec, iso}
use starkbank_backend_challe.Review.Page.{ReviewQuery, ReviewPage, mapping_page}
use starkbank_backend_challe.Review.Views.{
  BatchView, InvoiceView, TransferView, batch_views, invoice_views, transfer_views,
}
use starkbank_backend_challe.Review.Filters.{
  trial_fits, batch_fits, invoice_fits, transfer_fits, has_transfer_filters, event_fits,
}
use starkbank_backend_challe.Review.Overview.{Overview, overview_counts, transfer_totals}
use starkbank_backend_challe.Review.Payloads.{
  TrialPayload, BatchPayload, InvoicePayload, TransferPayload, EventPayload, trial_payload,
  batch_payload, invoice_payload, transfer_payload, event_payload,
}

module _ (smoke_run_id : String) (db : Database) where
  -- The rows of a listing before its page is cut out.
  unfoldable pub listed_trials : ReviewQuery → List TrialRunRow
  listed_trials query = select_where (trial_fits smoke_run_id query) db.trial_runs

  unfoldable pub listed_batches : ReviewQuery → List BatchView
  listed_batches query = select_where (λ v. batch_fits smoke_run_id query v.batch) (batch_views db)

  unfoldable pub listed_invoices : ReviewQuery → List InvoiceView
  listed_invoices query = select_where (invoice_fits smoke_run_id db query) (invoice_views db)

  unfoldable pub listed_transfers : ReviewQuery → List TransferView
  listed_transfers query = select_where (transfer_fits query) (transfer_views db)

  -- The count joins the drafts only where there is a filter.
  unfoldable pub transfers_total : ReviewQuery → ℕ
  transfers_total query =
      if has_transfer_filters query
      then count_where (transfer_fits query) (transfer_views db)
      else length db.transfer_jobs

  unfoldable pub listed_events : ReviewQuery → List WebhookEventRow
  listed_events query = select_where (event_fits db query) db.webhook_events

module _ (codec : Codec) (sql : NewestFirst) (smoke_run_id : String) (db : Database) where
  -- `_trial_row`: rows that were created at one instant come in any order.
  unfoldable pub trial_row : Option String → Option TrialRunRow
  trial_row trial_id = head? (
      sql.sort TrialRunRow (λ r. r.created_at) (λ r. "")
        (select_where
          (λ r.
            not (r.id == smoke_run_id) && (elim trial_id [ none ↦ true | some id ↦ r.id == id ]))
          db.trial_runs))

  -- `now` is `datetime.now(UTC)`.
  unfoldable pub overview : ℕ → Option String → Overview
  overview now trial_id =
      let trial = trial_row trial_id in
      let trial_key : Option String = elim trial [ none ↦ none | some r ↦ some r.id ] in
      record {
        generated_at = iso codec now;
        trial = elim trial [ none ↦ none | some r ↦ some (trial_payload codec r) ];
        counts = overview_counts db trial_key;
        transfer_totals_cents = transfer_totals db trial_key;
      }

  unfoldable pub trials : ReviewQuery → Result (ReviewPage TrialPayload)
  trials query =
      mapping_page codec sql (λ r. r.created_at) (λ r. r.id) (trial_payload codec)
        (listed_trials smoke_run_id db query)
        (count_where (trial_fits smoke_run_id query) db.trial_runs) query.limit query.cursor

  -- The count does not join the runs.
  unfoldable pub batches : ReviewQuery → Result (ReviewPage BatchPayload)
  batches query =
      mapping_page codec sql (λ v. v.batch.scheduled_at) (λ v. v.batch.id) (batch_payload codec)
        (listed_batches smoke_run_id db query)
        (count_where (batch_fits smoke_run_id query) db.invoice_batches) query.limit query.cursor

  unfoldable pub invoices : ReviewQuery → Result (ReviewPage InvoicePayload)
  invoices query =
      mapping_page codec sql (λ v. v.draft.created_at) (λ v. v.draft.id) (invoice_payload codec)
        (listed_invoices smoke_run_id db query)
        (count_where (invoice_fits smoke_run_id db query) (invoice_views db)) query.limit
        query.cursor

  unfoldable pub transfers : ReviewQuery → Result (ReviewPage TransferPayload)
  transfers query =
      mapping_page codec sql (λ v. v.job.created_at) (λ v. v.job.id) (transfer_payload codec)
        (listed_transfers smoke_run_id db query) (transfers_total smoke_run_id db query) query.limit
        query.cursor

  unfoldable pub events : ReviewQuery → Result (ReviewPage EventPayload)
  events query =
      mapping_page codec sql (λ r. r.received_at) (λ r. r.id) (event_payload codec)
        (listed_events smoke_run_id db query) (count_where (event_fits db query) db.webhook_events)
        query.limit query.cursor

  unfoldable pub trial : String → Option TrialPayload
  trial trial_id =
      elim (first_where (λ r. r.id == trial_id && not (r.id == smoke_run_id)) db.trial_runs) [
        | none ↦ none
        | some r ↦ some (trial_payload codec r)
      ]

  unfoldable pub batch : String → Option BatchPayload
  batch batch_id =
      elim (first_where
        (λ (v : BatchView). v.batch.id == batch_id && not (v.batch.run_id == smoke_run_id))
        (batch_views db)) [ none ↦ none | some v ↦ some (batch_payload codec v) ]

  unfoldable pub invoice : String → Option InvoicePayload
  invoice draft_id =
      elim (first_where
        (λ (v : InvoiceView). v.draft.id == draft_id && not (v.run_id == smoke_run_id))
        (invoice_views db)) [ none ↦ none | some v ↦ some (invoice_payload codec v) ]

  unfoldable pub transfer : String → Option TransferPayload
  transfer job_id =
      elim (first_where (λ (v : TransferView). v.job.id == job_id) (transfer_views db)) [
        | none ↦ none
        | some v ↦ some (transfer_payload codec v)
      ]

  unfoldable pub event : String → Option EventPayload
  event event_id = elim (first_where (λ r. r.id == event_id) db.webhook_events) [
    | none ↦ none
    | some r ↦ some (event_payload codec r)
  ]
