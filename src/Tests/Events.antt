-- ===== src/Tests/Events.antt =====
-- Webhook events.
use starkbank_backend_challe.Base.{ℕ, ◌≡◌, refl, true, some, [], ◌∷◌, String, arith, All, RowByRow}
use starkbank_backend_challe.Base.Int.{pos, ◌+ℤ◌}
use starkbank_backend_challe.Domain.Errors.{ok}
use starkbank_backend_challe.Domain.Events.{credited_invoice}
use starkbank_backend_challe.Domain.Transfer.{build_transfer_command}
use starkbank_backend_challe.Domain.Time.{as_utc}
use starkbank_backend_challe.Domain.Status.{queued, transfer_updated, duplicate_event}
use starkbank_backend_challe.Schema.{
  Database, transfer_jobs_constraints, webhook_events_constraints, owned_invoices_constraints,
}
use starkbank_backend_challe.EventStore.{
  event_row, insert_event, new_job, insert_job, enqueue, queue_transfer, is_in, from_keys,
  bind_owner, confirm_draft, is_other, owns_by_tag, owns_found, owns_invoice, initial_outcome,
  is_stale, transfer_outcome, provider_said, update_transfer, record_transfer_event, credit,
  record_other, record_kind, record_event,
}
use starkbank_backend_challe.EventStore.Jobs.{JobsAfter, record_event-JobsAfter}
use starkbank_backend_challe.EventStore.Timeline.{IsNewer, record_event-IsNewer}
use starkbank_backend_challe.EventStore.Handled.{record_event_handled}
use starkbank_backend_challe.EventStore.Once.{queued_once}
use starkbank_backend_challe.EventStore.Owners.{Owners, record_event-Owners}
use starkbank_backend_challe.EventStore.Ownership.{is_owned, queued_is_owned}
use starkbank_backend_challe.Webhooks.{WebhookEnv, receive}
use starkbank_backend_challe.Webhooks.Funding.{IsFunded, receive-IsFunded}
use starkbank_backend_challe.Tests.Data.{
  waiting_row, done_row, owner_row, store, payment, payment_record, update, update_record,
}
use starkbank_backend_challe.Tests.Jobs.{store_consistent}

-- The database once the payment is queued.
abbrev paid : Database
paid = record store {
  owned_invoices =
      record owner_row { provider_invoice_id = some "invoice-3"; updated_at = 30 } ∷ [];
  webhook_events = event_row payment_record queued ∷ [];
  transfer_jobs = waiting_row ∷ done_row ∷ new_job "job-3" payment (pos 280) 30 ∷ [];
}

payment_queued : record_event "job-3" payment_record store ≡ ok (queued, paid)
unfolding record_event record_kind record_other credit initial_outcome insert_event owns_invoice
    owns_found is_in from_keys owns_by_tag is_other bind_owner confirm_draft queue_transfer enqueue
    insert_job new_job event_row transfer_jobs_constraints webhook_events_constraints
    owned_invoices_constraints build_transfer_command
payment_queued = refl

abbrev updated : Database
updated = record store {
  webhook_events = event_row update_record transfer_updated ∷ [];
  transfer_jobs = waiting_row ∷ provider_said update_record update done_row ∷ [];
}

update_recorded : record_event "job-4" update_record store ≡ ok (transfer_updated, updated)
unfolding record_event record_kind record_transfer_event update_transfer transfer_outcome is_stale
    as_utc insert_event provider_said event_row transfer_jobs_constraints webhook_events_constraints
update_recorded = refl

record_event-JobsAfter_example : JobsAfter "job-3" payment_record store queued paid
record_event-JobsAfter_example =
    record_event-JobsAfter "job-3" payment_record store queued paid payment_queued

record_event-IsNewer_example :
    RowByRow (IsNewer update_record transfer_updated) store.transfer_jobs updated.transfer_jobs
record_event-IsNewer_example =
    record_event-IsNewer "job-4" update_record store transfer_updated updated store_consistent refl
      update_recorded

queued_once_example : record_event "job-5" payment_record paid ≡ ok (duplicate_event, paid)
queued_once_example =
    queued_once "job-3" "job-5" payment_record payment_record store paid payment_queued refl

record_event_handled_example :
    record_event "job-5" update_record updated ≡ ok (duplicate_event, updated)
unfolding event_row
record_event_handled_example =
    record_event_handled "job-5" update_record updated (event_row update_record transfer_updated)
      refl refl

record_event-Owners_example : Owners store paid
record_event-Owners_example =
    record_event-Owners "job-3" payment_record store queued paid payment_queued

queued_is_owned_example : is_owned "invoice-3" paid ≡ true
queued_is_owned_example =
    queued_is_owned "job-3" payment_record payment store paid refl payment_queued

-- A verifier that accepts every delivery as the payment.
abbrev pub env : WebhookEnv ℕ String
env = record {
  clock = record { now = λ w. (w, w) };
  verify_event = λ content signature w. (ok (credited_invoice payment), w);
  sha256 = λ content. content;
  uuid4 = λ w. ("job-3", w);
  meanwhile = λ w db. db;
}

store-IsFunded : All IsFunded store.transfer_jobs
unfolding build_transfer_command ◌+ℤ◌
store-IsFunded = (
  record {
    positive = ground arith;
    fee = ground arith;
    sum = ground arith;
    external_id = refl;
    tag = refl;
  },
  (
    record {
      positive = ground arith;
      fee = ground arith;
      sum = ground arith;
      external_id = refl;
      tag = refl;
    },
    tt,
  ),
)

receive-IsFunded_example : All IsFunded (receive env "body" "signature" store 30).1.transfer_jobs
receive-IsFunded_example = receive-IsFunded env "body" "signature" store 30 store-IsFunded
