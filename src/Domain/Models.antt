-- ===== src/Domain/Models.antt =====
-- The dataclasses of domain/models.py, invoices.py, jobs.py, trials.py and provider.py.
use starkbank_backend_challe.Base.{ℕ, Option, List, String}
use starkbank_backend_challe.Base.Int.{ℤ}
use starkbank_backend_challe.Domain.Status.{BatchStatus, DraftStatus, TransferStatus, TrialStatus}

pub record Recipient : Type 0 where
  pub bank_code : String
  pub branch_code : String
  pub account_number : String
  pub name : String
  pub tax_id : String
  pub account_type : String

pub record TransferCommand : Type 0 where
  pub invoice_id : String
  pub amount : ℤ
  pub external_id : String
  pub tag : String
  pub recipient : Recipient

pub record ScheduleSlot : Type 0 where
  pub index : ℕ
  pub scheduled_at : ℕ
  pub target_count : ℕ

pub record InvoiceDraft : Type 0 where
  pub id : String
  pub batch_id : String
  pub ordinal : ℕ
  pub payer_name : String
  pub payer_tax_id : String
  pub amount : ℕ
  pub tag : String
  pub status : DraftStatus
  pub attempts : ℕ
  pub created_at : ℕ
  pub next_attempt_at : Option ℕ

pub record ProviderInvoice : Type 0 where
  pub id : String
  pub tag : String

pub record DraftCreated : Type 0 where
  pub draft_id : String
  pub invoice_id : String
  pub at : ℕ

pub record DraftFailure : Type 0 where
  pub draft_id : String
  pub error_code : String
  pub at : ℕ

pub record InvoiceReconciliation : Type 0 where
  pub draft : InvoiceDraft
  pub provider_invoice : Option ProviderInvoice
  pub at : ℕ

pub record JobClaim : Type 0 where
  pub now : ℕ
  pub lease_until : ℕ

pub record TransferJob : Type 0 where
  pub id : String
  pub event_id : String
  pub invoice_id : String
  pub amount : ℤ
  pub fee : ℤ
  pub net_amount : ℤ
  pub external_id : String
  pub tag : String
  pub status : TransferStatus
  pub attempts : ℕ
  pub lease_until : ℕ
  pub claimed_from : Option TransferStatus

pub record ProviderTransfer : Type 0 where
  pub id : String
  pub external_id : String
  pub status : String

pub record NewTrial : Type 0 where
  pub start_at : ℕ
  pub schedule : List ScheduleSlot

pub record TrialRun : Type 0 where
  pub id : String
  pub status : TrialStatus
  pub started_at : ℕ
  pub ends_at : ℕ

pub record BatchClaim : Type 0 where
  pub now : ℕ
  pub lease_until : ℕ
  pub max_attempts : ℕ

pub record InvoiceBatch : Type 0 where
  pub id : String
  pub run_id : String
  pub slot_index : ℕ
  pub scheduled_at : ℕ
  pub target_count : ℕ
  pub status : BatchStatus
  pub lease_until : ℕ
  pub attempts : ℕ

pub record ProviderWebhook : Type 0 where
  pub id : String
  pub url : String
  pub subscriptions : List String

pub record WebhookInspection : Type 0 where
  pub active : Option ProviderWebhook
  pub stale : List ProviderWebhook
