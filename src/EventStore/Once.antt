-- ===== src/EventStore/Once.antt =====
-- An event queues a transfer once.
use starkbank_backend_challe.Base.{
  ℕ, ◌≡◌, refl, sym, ◌∙◌, inl, inr, true, Option, none, some, List, [], ◌∷◌, ◌++◌, String, ◌==◌,
  arith, first_where, first_where-append, first_where_holds, first_where-update_where, update_where,
  eq_refl, is_unique-append, exists_where, Bool-cases, Option-cases,
}
use starkbank_backend_challe.Base.Int.{ℤ}
use starkbank_backend_challe.Domain.Errors.{ok}
use starkbank_backend_challe.Domain.Events.{
  CreditedInvoiceEvent, VerifiedEvent, EventRecord, credited_invoice, ignored, transfer_lifecycle,
  event_id_of,
}
use starkbank_backend_challe.Domain.Status.{EventWriteResult, queued, is_queued, duplicate_event}
use starkbank_backend_challe.Schema.{Database, WebhookEventRow, webhook_events_constraints}
use starkbank_backend_challe.Transaction.{bind_inv}
use starkbank_backend_challe.EventStore.Jobs.{record_event-JobsAfter}
use starkbank_backend_challe.EventStore.SameJobs.{owns_invoice-Same}
use starkbank_backend_challe.EventStore.{
  set_outcome, mark_duplicate, mark_invoice_unknown, new_job, insert_job, enqueue, queue_transfer,
  owns_invoice, requeue, try_again, credit, event_row, insert_event, is_recoverable,
  initial_outcome, recover, recover_duplicate, record_other, record_kind, record_event,
}
use starkbank_backend_challe.EventStore.Handled.{stored_event, record_event_handled}

bind_stored :
    (event_id : String) (xs : List WebhookEventRow) (row : WebhookEventRow)
    → webhook_events_constraints (xs ++ row ∷ []) ≡ true
    → row.id ≡ event_id
    → first_where (λ r. r.id == event_id) (xs ++ row ∷ []) ≡ some row
unfolding webhook_events_constraints
bind_stored event_id xs row h e =
    let free = is_unique-append (λ r. some r.id) xs row in
    first_where-append (λ r. r.id == event_id) xs row (rw (sym e) (ground arith))
      (rw e (eq_refl event_id))

set_outcome_stored :
    (event_id : String) (outcome : EventWriteResult) (xs : List WebhookEventRow)
    (row : WebhookEventRow)
    → first_where (λ r. r.id == event_id) xs ≡ some row
    → first_where
        (λ r. r.id == event_id)
        (update_where (λ r. r.id == event_id) (λ r. record r { outcome = outcome }) xs)
      ≡ some (record row { outcome = outcome })
set_outcome_stored event_id outcome xs row e =
    let hit = first_where_holds (λ r. r.id == event_id) xs e in
    first_where-update_where (λ r. r.id == event_id) (λ r. r.id == event_id)
      (λ r. record r { outcome = outcome }) (λ r. refl) xs row e
    ∙ rw hit refl

-- The row of the event, when the event has queued a transfer.
abbrev QueuedRow : String → EventWriteResult → Database → Type 0
QueuedRow event_id outcome db =
    outcome ≡ queued
    → (row : WebhookEventRow) × (stored_event event_id db ≡ some row) × (row.outcome ≡ queued)

insert_event_rows :
    (rec : EventRecord) (outcome : EventWriteResult) (db db' : Database)
    → insert_event rec outcome db ≡ ok (true, db')
    → (webhook_events_constraints (db.webhook_events ++ event_row rec outcome ∷ []) ≡ true)
      × (db'.webhook_events ≡ db.webhook_events ++ event_row rec outcome ∷ [])
unfolding insert_event
insert_event_rows rec outcome db db' e = (ground arith, ground arith)

insert_event_new :
    (rec : EventRecord) (outcome : EventWriteResult) (db db' : Database)
    → insert_event rec outcome db ≡ ok (true, db')
    → stored_event (event_id_of rec.event) db' ≡ some (event_row rec outcome)
unfolding event_row
insert_event_new rec outcome db db' e =
    let (fits, rows) = insert_event_rows rec outcome db db' e in
    rw rows
      (bind_stored (event_id_of rec.event) db.webhook_events (event_row rec outcome) fits refl)

-- A job that is queued leaves the events as they are.
queue_transfer_events :
    (job_id : String) (event : CreditedInvoiceEvent) (net_amount : ℤ) (at : ℕ) (db db' : Database)
    → queue_transfer job_id event net_amount at db ≡ ok (queued, db')
    → db'.webhook_events ≡ db.webhook_events
unfolding queue_transfer enqueue insert_job mark_duplicate set_outcome
queue_transfer_events job_id event net_amount at db db' e =
    elim (Bool-cases (exists_where (λ r. r.invoice_id == event.invoice_id) db.transfer_jobs)) [
      | inl present ↦ let done = rw present at e in ground arith
      | inr absent ↦
          let job = new_job job_id event net_amount at in
          let (inserted, mid, first, rest) = bind_inv (insert_job job) _ db (rw absent at e) in
          ground arith
    ]

credit-QueuedRow :
    (job_id : String) (rec : EventRecord) (event : VerifiedEvent) (net : Option ℤ) (db : Database)
    (outcome : EventWriteResult) (db' : Database)
    → stored_event (event_id_of rec.event) db ≡ some (event_row rec (initial_outcome event net))
    → credit job_id rec event net db ≡ ok (outcome, db')
    → QueuedRow (event_id_of rec.event) outcome db'
unfolding credit initial_outcome mark_invoice_unknown set_outcome event_row
credit-QueuedRow job_id rec (credited_invoice event) (some net) db outcome db' stored e q =
    let (owned, mid, first, rest) = bind_inv (owns_invoice event rec.received_at) _ db e in
    let mid_events = (owns_invoice-Same event rec.received_at db owned mid first).1 in
    elim (Bool-cases owned) [
      | inl kept ↦
          let events =
            queue_transfer_events job_id event net rec.received_at mid db' (rw (kept, q) at rest) in
          (event_row rec queued, rw (events, mid_events) stored, refl)
      | inr refused ↦ let done = rw (refused, q) at rest in ground arith
    ]
credit-QueuedRow job_id rec (credited_invoice event) none db outcome db' stored e q = ground arith
credit-QueuedRow job_id rec (ignored event) net db outcome db' stored e q = ground arith
credit-QueuedRow job_id rec (transfer_lifecycle event) net db outcome db' stored e q =
    (event_row rec (initial_outcome (transfer_lifecycle event) net), ground arith, ground arith)

requeue-QueuedRow :
    (job_id : String) (event : CreditedInvoiceEvent) (net_amount : ℤ) (at : ℕ) (db db' : Database)
    (row : WebhookEventRow)
    → stored_event event.event_id db ≡ some row
    → requeue job_id event net_amount at db ≡ ok (queued, db')
    → QueuedRow event.event_id queued db'
unfolding requeue set_outcome
requeue-QueuedRow job_id event net_amount at db db' row stored e q =
    let (first, mid, e₁, e₂) = bind_inv (queue_transfer job_id event net_amount at) _ db e in
    elim (Bool-cases (is_queued first)) [
      | inl queues ↦
          let done = rw queues at e₂ in
          let is_first : first ≡ queued = ground arith in
          let events =
            queue_transfer_events job_id event net_amount at db mid (rw is_first at e₁) in
          let rows : db'.webhook_events
              ≡ update_where (λ r. r.id == event.event_id) (λ r. record r { outcome = queued })
                  mid.webhook_events =
            ground arith in
          (
            record row { outcome = queued },
            rw (rows, events)
                (set_outcome_stored event.event_id queued db.webhook_events row stored),
            refl,
          )
      | inr queues_not ↦ let done = rw queues_not at e₂ in ground arith
    ]

try_again-QueuedRow :
    (job_id : String) (event : CreditedInvoiceEvent) (net_amount : ℤ) (at : ℕ) (db db' : Database)
    (row : WebhookEventRow)
    → stored_event event.event_id db ≡ some row
    → try_again job_id event net_amount at db ≡ ok (queued, db')
    → QueuedRow event.event_id queued db'
unfolding try_again
try_again-QueuedRow job_id event net_amount at db db' row stored e =
    let (owned, mid, first, rest) = bind_inv (owns_invoice event at) _ db e in
    let events = (owns_invoice-Same event at db owned mid first).1 in
    elim (Bool-cases owned) [
      | inl kept ↦
          requeue-QueuedRow job_id event net_amount at mid db' row (rw events stored)
            (rw kept at rest)
      | inr refused ↦ let done = rw refused at rest in ground arith
    ]

recover-QueuedRow :
    (job_id : String) (rec : EventRecord) (event : VerifiedEvent) (net : Option ℤ)
    (db db' : Database)
    → rec.event ≡ event
    → recover job_id rec event net db ≡ ok (queued, db')
    → QueuedRow (event_id_of rec.event) queued db'
unfolding recover is_recoverable
recover-QueuedRow job_id rec (credited_invoice event) (some net) db db' same_event e =
    elim (Option-cases (stored_event event.event_id db)) [
      | inl missing ↦ let done = rw missing at e in ground arith
      | inr (row, stored) ↦ rw same_event (elim (Bool-cases (is_recoverable rec (some row))) [
        | inl again ↦
            try_again-QueuedRow job_id event net rec.received_at db db' row stored
              (rw (stored, again) at e)
        | inr not_again ↦ let done = rw (stored, not_again) at e in ground arith
      ])
    ]
recover-QueuedRow job_id rec (credited_invoice event) none db db' same_event e = ground arith
recover-QueuedRow job_id rec (ignored event) net db db' same_event e = ground arith
recover-QueuedRow job_id rec (transfer_lifecycle event) net db db' same_event e = ground arith

record_other-QueuedRow :
    (job_id : String) (rec : EventRecord) (db db' : Database)
    → record_other job_id rec db ≡ ok (queued, db')
    → QueuedRow (event_id_of rec.event) queued db'
unfolding record_other recover_duplicate
record_other-QueuedRow job_id rec db db' e =
    let first_outcome = initial_outcome rec.event rec.net_amount in
    let (inserted, mid, e₁, e₂) = bind_inv (insert_event rec first_outcome) _ db e in
    elim (Bool-cases inserted) [
      | inl kept ↦
          credit-QueuedRow job_id rec rec.event rec.net_amount mid queued db'
            (insert_event_new rec first_outcome db mid (rw kept at e₁)) (rw kept at e₂)
      | inr refused ↦
          recover-QueuedRow job_id rec rec.event rec.net_amount mid db' refl (rw refused at e₂)
    ]

record_kind-QueuedRow :
    (job_id : String) (rec : EventRecord) (event : VerifiedEvent) (credited : CreditedInvoiceEvent)
    (db db' : Database)
    → event ≡ credited_invoice credited
    → record_kind job_id rec event db ≡ ok (queued, db')
    → QueuedRow (event_id_of rec.event) queued db'
unfolding record_kind
record_kind-QueuedRow job_id rec (credited_invoice event) credited db db' h e =
    record_other-QueuedRow job_id rec db db' e
record_kind-QueuedRow job_id rec _ credited db db' h e = cc

record_event-QueuedRow :
    (job_id : String) (rec : EventRecord) (db db' : Database)
    → record_event job_id rec db ≡ ok (queued, db')
    → QueuedRow (event_id_of rec.event) queued db'
unfolding record_event
record_event-QueuedRow job_id rec db db' e =
    elim (record_event-JobsAfter job_id rec db queued db' e) [
      | inl q ↦ record_kind-QueuedRow job_id rec rec.event q.event db db' q.event_lem e
      | inr (inl u) ↦ let never = u.outcome_lem in ground arith
      | inr (inr same) ↦ let never = same.outcome_lem in ground arith
    ]

-- A transfer is queued once for an event: when recording it has returned QUEUED, recording any
-- event with the same id right after, from a redelivery or with another payload, is a duplicate
-- and leaves the database as it is.
pub queued_once :
    (job_id later_id : String) (rec later : EventRecord) (db db' : Database)
    → record_event job_id rec db ≡ ok (queued, db')
    → event_id_of later.event ≡ event_id_of rec.event
    → record_event later_id later db' ≡ ok (duplicate_event, db')
queued_once job_id later_id rec later db db' e id =
    let (row, stored, q) = record_event-QueuedRow job_id rec db db' e refl in
    record_event_handled later_id later db' row (rw id stored) (rw q refl)
