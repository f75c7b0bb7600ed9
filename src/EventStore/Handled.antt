-- ===== src/EventStore/Handled.antt =====
-- An event that is delivered again after it has been dealt with.
use starkbank_backend_challe.Base.{
  ◌≡◌, refl, sym, ◌∙◌, true, false, Option, none, some, String, ◌==◌, arith, first_where,
  first_where_and, is_unique-append,
}
use starkbank_backend_challe.Base.Int.{ℤ}
use starkbank_backend_challe.Domain.Errors.{ok}
use starkbank_backend_challe.Domain.Events.{
  VerifiedEvent, EventRecord, credited_invoice, ignored, transfer_lifecycle, event_id_of,
}
use starkbank_backend_challe.Domain.Status.{EventWriteResult, duplicate_event, is_invoice_unknown}
use starkbank_backend_challe.Schema.{Database, WebhookEventRow, webhook_events_constraints}
use starkbank_backend_challe.Transaction.{bind_ok}
use starkbank_backend_challe.EventStore.{
  event_row, insert_event, transfer_outcome, is_recoverable, initial_outcome, recover,
  recover_duplicate, record_transfer_event, record_other, record_kind, record_event,
}

-- The row that the database holds for an event id.
abbrev pub stored_event : String → Database → Option WebhookEventRow
stored_event event_id db = first_where (λ r. r.id == event_id) db.webhook_events

-- An event id that is stored is not inserted again.
insert_event_stored :
    (rec : EventRecord) (outcome : EventWriteResult) (db : Database) (row : WebhookEventRow)
    → stored_event (event_id_of rec.event) db ≡ some row
    → insert_event rec outcome db ≡ ok (false, db)
unfolding insert_event webhook_events_constraints event_row
insert_event_stored rec outcome db row e =
    let present =
      first_where_and (λ r. r.id == event_id_of rec.event) (λ _. true) db.webhook_events row e
        refl in
    ground (arith, is_unique-append (λ r. some r.id) db.webhook_events (event_row rec outcome))

module _ (job_id : String) (rec : EventRecord) (db : Database) (row : WebhookEventRow)
    (stored : stored_event (event_id_of rec.event) db ≡ some row)
    (handled : is_invoice_unknown row.outcome ≡ false) where
  not_recoverable : (o : Option WebhookEventRow) → o ≡ some row → is_recoverable rec o ≡ false
  unfolding is_recoverable
  not_recoverable none e = refl
  not_recoverable (some r) e = ground arith

  recover_handled :
      (event : VerifiedEvent) (net : Option ℤ)
      → event ≡ rec.event
      → recover job_id rec event net db ≡ ok (duplicate_event, db)
  unfolding recover
  recover_handled (credited_invoice event) (some net) e =
      rw (not_recoverable (stored_event event.event_id db) (rw (sym e) at stored)) refl
  recover_handled (credited_invoice event) none e = refl
  recover_handled (ignored event) net e = refl
  recover_handled (transfer_lifecycle event) net e = refl

  record_other_handled : record_other job_id rec db ≡ ok (duplicate_event, db)
  unfolding record_other recover_duplicate
  record_other_handled =
      let first_outcome = initial_outcome rec.event rec.net_amount in
      bind_ok (insert_event rec first_outcome) _ db
        (insert_event_stored rec first_outcome db row stored)
      ∙ recover_handled rec.event rec.net_amount refl

  record_kind_handled :
      (event : VerifiedEvent) → record_kind job_id rec event db ≡ ok (duplicate_event, db)
  unfolding record_kind record_transfer_event
  record_kind_handled (transfer_lifecycle event) =
      let job = first_where (λ r. r.external_id == event.external_id) db.transfer_jobs in
      let outcome = transfer_outcome job event.updated_at in
      bind_ok (insert_event rec outcome) _ db (insert_event_stored rec outcome db row stored)
  record_kind_handled (credited_invoice event) = record_other_handled
  record_kind_handled (ignored event) = record_other_handled

  -- An event whose id is stored with an outcome other than INVOICE_UNKNOWN is a duplicate: nothing
  -- in the database changes, whatever the delivery says otherwise.
  pub record_event_handled : record_event job_id rec db ≡ ok (duplicate_event, db)
  unfolding record_event
  record_event_handled = record_kind_handled rec.event
