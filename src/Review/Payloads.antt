-- ===== src/Review/Payloads.antt =====
-- persistence/review_store.py: the JSON object of each row, as a record with the object's keys.
use starkbank_backend_challe.Base.{ℕ, Option, none, some, String}
use starkbank_backend_challe.Base.Int.{ℤ}
use starkbank_backend_challe.Domain.Time.{as_utc}
use starkbank_backend_challe.Domain.Values.{
  trial_status_value, batch_status_value, draft_status_value, transfer_status_value, outcome_value,
}
use starkbank_backend_challe.Schema.{TrialRunRow, WebhookEventRow}
use starkbank_backend_challe.Review.Cursor.{Codec, iso, iso_or_none}
use starkbank_backend_challe.Review.Views.{BatchView, InvoiceView, TransferView}

pub record TrialPayload : Type 0 where
  pub id : String
  pub status : String
  pub started_at : String
  pub ends_at : String
  pub created_at : String
  pub completed_at : Option String

pub record BatchPayload : Type 0 where
  pub id : String
  pub trial_id : String
  pub slot_index : ℕ
  pub scheduled_at : String
  pub target_count : ℕ
  pub status : String
  pub trial_status : String
  pub attempts : ℕ
  pub lease_until : Option String
  pub completed_at : Option String

pub record InvoicePayload : Type 0 where
  pub id : String
  pub trial_id : String
  pub batch_id : String
  pub ordinal : ℕ
  pub amount_cents : ℕ
  pub tag : String
  pub status : String
  pub credit_status : String
  pub provider_invoice_id : Option String
  pub attempts : ℕ
  pub reconcile_attempts : ℕ
  pub last_error_code : Option String
  pub credited_at : Option String
  pub created_at : String
  pub updated_at : String
  pub next_attempt_at : String

pub record TransferPayload : Type 0 where
  pub id : String
  pub trial_id : Option String
  pub batch_id : Option String
  pub event_id : String
  pub invoice_id : String
  pub provider_transfer_id : Option String
  pub amount_cents : ℤ
  pub fee_cents : ℤ
  pub net_amount_cents : ℤ
  pub external_id : String
  pub tag : String
  pub dispatch_status : String
  pub provider_status : Option String
  pub provider_log_type : Option String
  pub provider_status_updated_at : Option String
  pub attempts : ℕ
  pub next_attempt_at : String
  pub last_error_code : Option String
  pub created_at : String
  pub updated_at : String

pub record EventPayload : Type 0 where
  pub id : String
  pub subscription : String
  pub log_type : String
  pub invoice_id : Option String
  pub transfer_id : Option String
  pub outcome : String
  pub received_at : String

-- `"credited" if row["credited_at"] is not None else "not_observed"`
unfoldable pub credit_status_of : Option ℕ → String
credit_status_of none = "not_observed"
credit_status_of (some at) = "credited"

module _ (codec : Codec) where
  unfoldable pub trial_payload : TrialRunRow → TrialPayload
  trial_payload r = record {
    id = r.id;
    status = trial_status_value r.status;
    started_at = iso codec r.started_at;
    ends_at = iso codec r.ends_at;
    created_at = iso codec r.created_at;
    completed_at = iso_or_none codec r.completed_at;
  }

  unfoldable pub batch_payload : BatchView → BatchPayload
  batch_payload v = record {
    id = v.batch.id;
    trial_id = v.batch.run_id;
    slot_index = v.batch.slot_index;
    scheduled_at = iso codec v.batch.scheduled_at;
    target_count = v.batch.target_count;
    status = batch_status_value v.batch.status;
    trial_status = trial_status_value v.trial_status;
    attempts = v.batch.attempts;
    lease_until = iso_or_none codec v.batch.lease_until;
    completed_at = iso_or_none codec v.batch.completed_at;
  }

  unfoldable pub invoice_payload : InvoiceView → InvoicePayload
  invoice_payload v = record {
    id = v.draft.id;
    trial_id = v.run_id;
    batch_id = v.draft.batch_id;
    ordinal = v.draft.ordinal;
    amount_cents = v.draft.amount;
    tag = v.draft.tag;
    status = draft_status_value v.draft.status;
    credit_status = credit_status_of v.credited_at;
    provider_invoice_id = v.draft.provider_invoice_id;
    attempts = v.draft.attempts;
    reconcile_attempts = v.draft.reconcile_attempts;
    last_error_code = v.draft.last_error_code;
    credited_at = iso_or_none codec v.credited_at;
    created_at = iso codec v.draft.created_at;
    updated_at = iso codec v.draft.updated_at;
    next_attempt_at = iso codec v.draft.next_attempt_at;
  }

  unfoldable pub transfer_payload : TransferView → TransferPayload
  transfer_payload v = record {
    id = v.job.id;
    trial_id = v.run_id;
    batch_id = v.batch_id;
    event_id = v.job.event_id;
    invoice_id = v.job.invoice_id;
    provider_transfer_id = v.job.provider_transfer_id;
    amount_cents = v.job.amount;
    fee_cents = v.job.fee;
    net_amount_cents = v.job.net_amount;
    external_id = v.job.external_id;
    tag = v.job.tag;
    dispatch_status = transfer_status_value v.job.status;
    provider_status = v.job.provider_status;
    provider_log_type = v.job.provider_log_type;
    provider_status_updated_at = elim v.job.provider_status_updated_at [
      | none ↦ none
      | some at ↦ some (iso codec (as_utc at))
    ];
    attempts = v.job.attempts;
    next_attempt_at = iso codec v.job.next_attempt_at;
    last_error_code = v.job.last_error_code;
    created_at = iso codec v.job.created_at;
    updated_at = iso codec v.job.updated_at;
  }

  unfoldable pub event_payload : WebhookEventRow → EventPayload
  event_payload r = record {
    id = r.id;
    subscription = r.subscription;
    log_type = r.log_type;
    invoice_id = r.invoice_id;
    transfer_id = r.transfer_id;
    outcome = outcome_value r.outcome;
    received_at = iso codec r.received_at;
  }
