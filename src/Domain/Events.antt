-- ===== src/Domain/Events.antt =====
-- domain/events.py: what the provider reports, and what the event store writes of it.
use starkbank_backend_challe.Base.{ℕ, Option, List, String}
use starkbank_backend_challe.Base.Int.{ℤ}
use starkbank_backend_challe.Domain.Time.{Datetime}

pub record CreditedInvoiceEvent : Type 0 where
  pub event_id : String
  pub invoice_id : String
  pub amount : ℤ
  pub fee : ℤ
  pub workspace_id : String
  pub tags : List String
  pub subscription : String
  pub log_type : String

pub record IgnoredEvent : Type 0 where
  pub event_id : String
  pub subscription : String
  pub log_type : String
  pub workspace_id : String

pub record TransferLifecycleEvent : Type 0 where
  pub event_id : String
  pub transfer_id : String
  pub external_id : String
  pub status : String
  pub log_type : String
  pub updated_at : Datetime
  pub workspace_id : String
  pub subscription : String

pub data VerifiedEvent : Type 0 where
  credited_invoice : CreditedInvoiceEvent → VerifiedEvent
  ignored : IgnoredEvent → VerifiedEvent
  transfer_lifecycle : TransferLifecycleEvent → VerifiedEvent

pub record EventRecord : Type 0 where
  pub event : VerifiedEvent
  pub payload_hash : String
  pub received_at : ℕ
  pub net_amount : Option ℤ

-- The fields that every event has.
abbrev pub event_id_of : VerifiedEvent → String
event_id_of (credited_invoice e) = e.event_id
event_id_of (ignored e) = e.event_id
event_id_of (transfer_lifecycle e) = e.event_id

abbrev pub subscription_of : VerifiedEvent → String
subscription_of (credited_invoice e) = e.subscription
subscription_of (ignored e) = e.subscription
subscription_of (transfer_lifecycle e) = e.subscription

abbrev pub log_type_of : VerifiedEvent → String
log_type_of (credited_invoice e) = e.log_type
log_type_of (ignored e) = e.log_type
log_type_of (transfer_lifecycle e) = e.log_type

abbrev pub workspace_id_of : VerifiedEvent → String
workspace_id_of (credited_invoice e) = e.workspace_id
workspace_id_of (ignored e) = e.workspace_id
workspace_id_of (transfer_lifecycle e) = e.workspace_id
