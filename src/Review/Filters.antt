-- ===== src/Review/Filters.antt =====
-- persistence/review_store.py: the WHERE part of each listing. A condition on a NULL column is not
-- true, so its row is left out.
use starkbank_backend_challe.Base.{
  ℕ, Bool, true, not, ◌&&◌, ◌||◌, Option, none, some, List, [], ◌∷◌, String, ◌==◌, leb, eqb, holds,
  is_none, exists_where,
}
use starkbank_backend_challe.Domain.Values.{
  trial_status_value, batch_status_value, draft_status_value, transfer_status_value, outcome_value,
}
use starkbank_backend_challe.Schema.{
  Database, TrialRunRow, InvoiceBatchRow, InvoiceDraftRow, WebhookEventRow, TransferJobRow,
}
use starkbank_backend_challe.Review.Page.{ReviewQuery}
use starkbank_backend_challe.Review.Views.{
  InvoiceView, TransferView, both_hold, drafts_and_batches, jobs_and_batches,
}

-- `if value is not None: conditions.append(column == value)`
abbrev pub fits : Option String → String → Bool
fits none column = true
fits (some v) column = column == v

-- The same for a column that may be NULL.
abbrev pub fits_nullable : Option String → Option String → Bool
fits_nullable none column = true
fits_nullable (some v) column = holds column v

abbrev pub fits_number : Option ℕ → ℕ → Bool
fits_number none column = true
fits_number (some n) column = eqb column n

-- `if values: conditions.append(column.in_(values))`
abbrev pub fits_any : List String → String → Bool
fits_any [] column = true
fits_any (v ∷ vs) column = exists_where (λ w. column == w) (v ∷ vs)

-- `_time_conditions`
unfoldable pub fits_time : ReviewQuery → ℕ → Bool
fits_time query at =
    (elim query.from_at [ none ↦ true | some from_at ↦ leb from_at at ])
    && (elim query.to_at [ none ↦ true | some to_at ↦ leb at to_at ])

-- `if value:`: the empty text is no value.
abbrev pub given : Option String → Option String
given none = none
given (some String.[]) = none
given (some (String.◌∷◌ c s)) = some (String.◌∷◌ c s)

-- `provider_invoice_id IN (SELECT invoice_id … WHERE invoice_id IS NOT NULL)`
unfoldable pub is_credited : Database → InvoiceDraftRow → Bool
is_credited db draft =
    exists_where (λ e. both_hold draft.provider_invoice_id e.invoice_id) db.webhook_events

-- `NOT (provider_invoice_id IN (…))`: for NULL it is true of an empty SELECT, and else NULL.
unfoldable pub is_not_observed : Database → InvoiceDraftRow → Bool
is_not_observed db draft = elim draft.provider_invoice_id [
  | none ↦ not (exists_where (λ e. not (is_none e.invoice_id)) db.webhook_events)
  | some id ↦ not (exists_where (λ e. holds e.invoice_id id) db.webhook_events)
]

-- Any other text is no condition.
unfoldable pub credit_fits : Database → Option String → InvoiceDraftRow → Bool
credit_fits db none draft = true
credit_fits db (some status) draft =
    (not (status == "credited") || is_credited db draft)
    && (not (status == "not_observed") || is_not_observed db draft)

module _ (smoke_run_id : String) where
  unfoldable pub trial_fits : ReviewQuery → TrialRunRow → Bool
  trial_fits query r =
      not (r.id == smoke_run_id)
      && fits query.trial_id r.id
      && fits_any query.statuses (trial_status_value r.status)
      && fits_time query r.created_at

  unfoldable pub batch_fits : ReviewQuery → InvoiceBatchRow → Bool
  batch_fits query r =
      not (r.run_id == smoke_run_id)
      && fits query.trial_id r.run_id
      && fits_any query.statuses (batch_status_value r.status)
      && fits_number query.slot_index r.slot_index
      && fits_time query r.scheduled_at

  -- `_invoice_filters`, with the condition on the smoke run
  unfoldable pub invoice_fits : Database → ReviewQuery → InvoiceView → Bool
  invoice_fits db query v =
      not (v.run_id == smoke_run_id)
      && fits query.trial_id v.run_id
      && fits query.batch_id v.draft.batch_id
      && fits_nullable query.provider_invoice_id v.draft.provider_invoice_id
      && fits query.tag v.draft.tag
      && fits_any query.statuses (draft_status_value v.draft.status)
      && credit_fits db query.credit_status v.draft
      && fits_time query v.draft.created_at

-- `_transfer_filters`
unfoldable pub transfer_fits : ReviewQuery → TransferView → Bool
transfer_fits query v =
    fits_nullable query.trial_id v.run_id
    && fits_nullable query.batch_id v.batch_id
    && fits query.invoice_id v.job.invoice_id
    && fits_nullable query.provider_transfer_id v.job.provider_transfer_id
    && fits query.external_id v.job.external_id
    && fits query.dispatch_status (transfer_status_value v.job.status)
    && fits_nullable query.provider_status v.job.provider_status
    && fits_nullable query.provider_log_type v.job.provider_log_type
    && fits_time query v.job.created_at

-- `if conditions`
unfoldable pub has_transfer_filters : ReviewQuery → Bool
has_transfer_filters query = not (
    is_none query.trial_id
    && is_none query.batch_id
    && is_none query.invoice_id
    && is_none query.provider_transfer_id
    && is_none query.external_id
    && is_none query.dispatch_status
    && is_none query.provider_status
    && is_none query.provider_log_type
    && is_none query.from_at
    && is_none query.to_at)

-- `invoice_id IN (the invoices of the trial's drafts)`
unfoldable pub invoice_of_trial : Database → String → Option String → Bool
invoice_of_trial db trial_id invoice_id =
    exists_where
      (λ (p : InvoiceDraftRow × InvoiceBatchRow).
        p.1.run_id == trial_id && both_hold invoice_id p.0.provider_invoice_id)
      (drafts_and_batches db)

-- `transfer_id IN (the transfers for the invoices of the trial's drafts)`
unfoldable pub transfer_of_trial : Database → String → Option String → Bool
transfer_of_trial db trial_id transfer_id =
    exists_where
      (λ (p : (TransferJobRow × InvoiceDraftRow) × InvoiceBatchRow).
        p.1.run_id == trial_id && both_hold transfer_id p.0.0.provider_transfer_id)
      (jobs_and_batches db)

unfoldable pub event_of_trial : Database → String → WebhookEventRow → Bool
event_of_trial db trial_id r =
    invoice_of_trial db trial_id r.invoice_id || transfer_of_trial db trial_id r.transfer_id

-- The conditions of `events`.
unfoldable pub event_fits : Database → ReviewQuery → WebhookEventRow → Bool
event_fits db query r =
    fits (given query.subscription) r.subscription
    && fits (given query.log_type) r.log_type
    && fits (given query.outcome) (outcome_value r.outcome)
    && (fits_nullable (given query.resource_id) r.invoice_id
        || fits_nullable (given query.resource_id) r.transfer_id)
    && (elim query.trial_id [ none ↦ true | some trial_id ↦ event_of_trial db trial_id r ])
    && fits_time query r.received_at
