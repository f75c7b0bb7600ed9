-- ===== src/Schema.antt =====
-- persistence/schema.py: the rows of the six tables and the constraints that the database checks.
-- Every column is here but `transfer_jobs.metadata`, which no statement reads or writes. Instants
-- are read back in UTC; `provider_status_updated_at` alone keeps the datetime as it was stored,
-- because its reader asks whether it has a zone. Foreign keys and column widths are left out.
use starkbank_backend_challe.Base.{
  ℕ, Bool, true, ◌&&◌, ◌||◌, ◌≡◌, Option, none, some, List, String, ◌==◌, leb, eqb, is_unique,
  is_unique_pair, every,
}
use starkbank_backend_challe.Base.Int.{ℤ, pos, ltb_ℤ, leb_ℤ}
use starkbank_backend_challe.Domain.Time.{Datetime}
use starkbank_backend_challe.Domain.Status.{
  TrialStatus, BatchStatus, DraftStatus, TransferStatus, EventWriteResult,
}

pub record TrialRunRow : Type 0 where
  pub id : String
  pub status : TrialStatus
  pub started_at : ℕ
  pub ends_at : ℕ
  pub created_at : ℕ
  pub completed_at : Option ℕ
  pub active_marker : Option ℕ

pub record InvoiceBatchRow : Type 0 where
  pub id : String
  pub run_id : String
  pub slot_index : ℕ
  pub scheduled_at : ℕ
  pub target_count : ℕ
  pub status : BatchStatus
  pub lease_until : Option ℕ
  pub attempts : ℕ
  pub created_at : ℕ
  pub completed_at : Option ℕ

pub record InvoiceDraftRow : Type 0 where
  pub id : String
  pub batch_id : String
  pub ordinal : ℕ
  pub payer_name : String
  pub payer_tax_id : String
  pub amount : ℕ
  pub tag : String
  pub status : DraftStatus
  pub provider_invoice_id : Option String
  pub attempts : ℕ
  pub reconcile_attempts : ℕ
  pub last_error_code : Option String
  pub created_at : ℕ
  pub updated_at : ℕ
  pub next_attempt_at : ℕ

pub record OwnedInvoiceRow : Type 0 where
  pub tag : String
  pub provider_invoice_id : Option String
  pub source : String
  pub draft_id : Option String
  pub created_at : ℕ
  pub updated_at : ℕ

pub record WebhookEventRow : Type 0 where
  pub id : String
  pub subscription : String
  pub log_type : String
  pub invoice_id : Option String
  pub transfer_id : Option String
  pub workspace_id : String
  pub payload_hash : String
  pub outcome : EventWriteResult
  pub received_at : ℕ

pub record TransferJobRow : Type 0 where
  pub id : String
  pub event_id : String
  pub invoice_id : String
  pub amount : ℤ
  pub fee : ℤ
  pub net_amount : ℤ
  pub external_id : String
  pub tag : String
  pub status : TransferStatus
  pub attempts : ℕ
  pub next_attempt_at : ℕ
  pub lease_until : Option ℕ
  pub provider_transfer_id : Option String
  pub provider_status : Option String
  pub provider_log_type : Option String
  pub provider_status_updated_at : Option Datetime
  pub last_error_code : Option String
  pub created_at : ℕ
  pub updated_at : ℕ

-- By the CHECK constraint all markers that are not NULL are equal.
abbrev pub marker_key : TrialRunRow → Option String
marker_key r = elim r.active_marker [ none ↦ none | some _ ↦ some "1" ]

abbrev pub is_marker : TrialRunRow → Bool
is_marker r = elim r.active_marker [ none ↦ true | some n ↦ eqb n 1 ]

unfoldable pub trial_runs_constraints : List TrialRunRow → Bool
trial_runs_constraints rows =
    is_unique (λ r. some r.id) rows && is_unique marker_key rows && every is_marker rows

abbrev pub is_between : ℕ → ℕ → ℕ → Bool
is_between low high n = leb low n && leb n high

unfoldable pub invoice_batches_constraints : List InvoiceBatchRow → Bool
invoice_batches_constraints rows =
    is_unique (λ r. some r.id) rows
    && is_unique_pair (λ r. r.run_id) (λ r. r.slot_index) rows
    && every (λ r. is_between 8 12 r.target_count) rows
    && every (λ r. is_between 0 7 r.slot_index) rows

unfoldable pub invoice_drafts_constraints : List InvoiceDraftRow → Bool
invoice_drafts_constraints rows =
    is_unique (λ r. some r.id) rows
    && is_unique (λ r. some r.tag) rows
    && is_unique (λ r. r.provider_invoice_id) rows
    && is_unique_pair (λ r. r.batch_id) (λ r. r.ordinal) rows
    && every (λ r. leb 1 r.amount) rows

unfoldable pub owned_invoices_constraints : List OwnedInvoiceRow → Bool
owned_invoices_constraints rows =
    is_unique (λ r. some r.tag) rows
    && is_unique (λ r. r.provider_invoice_id) rows
    && is_unique (λ r. r.draft_id) rows
    && every (λ r. r.source == "trial" || r.source == "smoke") rows

unfoldable pub webhook_events_constraints : List WebhookEventRow → Bool
webhook_events_constraints = is_unique (λ r. some r.id)

unfoldable pub transfer_jobs_constraints : List TransferJobRow → Bool
transfer_jobs_constraints rows =
    is_unique (λ r. some r.id) rows
    && is_unique (λ r. some r.event_id) rows
    && is_unique (λ r. some r.invoice_id) rows
    && is_unique (λ r. some r.external_id) rows
    && is_unique (λ r. some r.tag) rows
    && is_unique (λ r. r.provider_transfer_id) rows
    && every (λ r. ltb_ℤ (pos 0) r.amount) rows
    && every (λ r. leb_ℤ (pos 0) r.fee) rows
    && every (λ r. ltb_ℤ (pos 0) r.net_amount) rows

pub record Database : Type 0 where
  pub trial_runs : List TrialRunRow
  pub invoice_batches : List InvoiceBatchRow
  pub invoice_drafts : List InvoiceDraftRow
  pub owned_invoices : List OwnedInvoiceRow
  pub webhook_events : List WebhookEventRow
  pub transfer_jobs : List TransferJobRow

-- Every constraint of every table.
pub record IsConsistent (db : Database) : Type 0 where
  pub trial_runs_lem : trial_runs_constraints db.trial_runs ≡ true
  pub invoice_batches_lem : invoice_batches_constraints db.invoice_batches ≡ true
  pub invoice_drafts_lem : invoice_drafts_constraints db.invoice_drafts ≡ true
  pub owned_invoices_lem : owned_invoices_constraints db.owned_invoices ≡ true
  pub webhook_events_lem : webhook_events_constraints db.webhook_events ≡ true
  pub transfer_jobs_lem : transfer_jobs_constraints db.transfer_jobs ≡ true
