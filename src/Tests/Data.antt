-- ===== src/Tests/Data.antt =====
-- A database with one owner, one trial and two transfer jobs.
use starkbank_backend_challe.Base.{Bool, false, none, some, [], ◌∷◌}
use starkbank_backend_challe.Base.Int.{pos}
use starkbank_backend_challe.Domain.Time.{aware, naive}
use starkbank_backend_challe.Domain.Events.{
  CreditedInvoiceEvent, EventRecord, TransferLifecycleEvent, credited_invoice, transfer_lifecycle,
}
use starkbank_backend_challe.Domain.Models.{JobClaim, ProviderTransfer}
use starkbank_backend_challe.Domain.Status.{TransferStatus}
use starkbank_backend_challe.Schema.{Database, OwnedInvoiceRow, TransferJobRow}

abbrev pub waiting_row : TransferJobRow
waiting_row = record {
  id = "job-1";
  event_id = "event-1";
  invoice_id = "invoice-1";
  amount = pos 1000;
  fee = pos 50;
  net_amount = pos 950;
  external_id = "trial-transfer-invoice-1";
  tag = "trial-transfer:invoice-1";
  status = TransferStatus.pending;
  attempts = 0;
  next_attempt_at = 10;
  lease_until = none;
  provider_transfer_id = none;
  provider_status = none;
  provider_log_type = none;
  provider_status_updated_at = none;
  last_error_code = none;
  created_at = 5;
  updated_at = 5;
}

abbrev pub done_row : TransferJobRow
done_row = record {
  id = "job-2";
  event_id = "event-2";
  invoice_id = "invoice-2";
  amount = pos 700;
  fee = pos 0;
  net_amount = pos 700;
  external_id = "trial-transfer-invoice-2";
  tag = "trial-transfer:invoice-2";
  status = TransferStatus.succeeded;
  attempts = 1;
  next_attempt_at = 7;
  lease_until = none;
  provider_transfer_id = some "transfer-2";
  provider_status = some "processing";
  provider_log_type = none;
  provider_status_updated_at = some (aware 7);
  last_error_code = none;
  created_at = 6;
  updated_at = 7;
}

abbrev pub owner_row : OwnedInvoiceRow
owner_row = record {
  tag = "trial:draft-3";
  provider_invoice_id = none;
  source = "trial";
  draft_id = none;
  created_at = 1;
  updated_at = 1;
}

abbrev pub store : Database
store = record {
  trial_runs = [];
  invoice_batches = [];
  invoice_drafts = [];
  owned_invoices = owner_row ∷ [];
  webhook_events = [];
  transfer_jobs = waiting_row ∷ done_row ∷ [];
}

abbrev pub no_lock : TransferJobRow → Bool
no_lock r = false

abbrev pub first_claim : JobClaim
first_claim = record { now = 20; lease_until = 50 }

abbrev pub second_claim : JobClaim
second_claim = record { now = 60; lease_until = 90 }

abbrev pub payment : CreditedInvoiceEvent
payment = record {
  event_id = "event-3";
  invoice_id = "invoice-3";
  amount = pos 300;
  fee = pos 20;
  workspace_id = "workspace";
  tags = "other" ∷ "trial:draft-3" ∷ [];
  subscription = "invoice";
  log_type = "credited";
}

abbrev pub payment_record : EventRecord
payment_record = record {
  event = credited_invoice payment;
  payload_hash = "hash-3";
  received_at = 30;
  net_amount = some (pos 280);
}

abbrev pub update : TransferLifecycleEvent
update = record {
  event_id = "event-4";
  transfer_id = "transfer-2";
  external_id = "trial-transfer-invoice-2";
  status = "success";
  log_type = "success";
  updated_at = naive 9;
  workspace_id = "workspace";
  subscription = "transfer";
}

abbrev pub update_record : EventRecord
update_record = record {
  event = transfer_lifecycle update;
  payload_hash = "hash-4";
  received_at = 31;
  net_amount = none;
}

abbrev pub sent : ProviderTransfer
sent = record { id = "transfer-1"; external_id = "trial-transfer-invoice-1"; status = "created" }
