-- ===== src/EventStore/Jobs.antt =====
-- What recording an event does to the transfer jobs.
use starkbank_backend_challe.Base.{
  ◌≡◌, refl, ◌∙◌, ◌⊎◌, inl, inr, Bool, true, false, Option, none, some, String, ◌==◌, arith,
  Bool-cases, first_where,
}
use starkbank_backend_challe.Base.Int.{ℤ}
use starkbank_backend_challe.Domain.Errors.{ok}
use starkbank_backend_challe.Domain.Events.{
  CreditedInvoiceEvent, TransferLifecycleEvent, VerifiedEvent, EventRecord, credited_invoice,
  ignored, transfer_lifecycle,
}
use starkbank_backend_challe.Domain.Status.{EventWriteResult, is_queued, is_transfer_updated}
use starkbank_backend_challe.Domain.Time.{Datetime}
use starkbank_backend_challe.Schema.{Database, TransferJobRow}
use starkbank_backend_challe.Transaction.{bind_inv}
use starkbank_backend_challe.EventStore.{
  insert_event, update_transfer, record_kind, recover, recover_duplicate, initial_outcome,
  transfer_outcome, record_transfer_event, credit, record_other, record_event,
}
use starkbank_backend_challe.EventStore.SameJobs.{SameJobs, insert_event-SameJobs}
use starkbank_backend_challe.EventStore.Queueing.{
  IsQueued, IsUpdated, IsUntouched, QueuesOrNot, recover_cases, credit_cases,
}

abbrev is_transfer : VerifiedEvent → Bool
is_transfer (transfer_lifecycle _) = true
is_transfer _ = false

transfer_outcome_not_queued :
    (job : Option TransferJobRow) (updated_at : Datetime)
    → is_queued (transfer_outcome job updated_at) ≡ false
unfolding transfer_outcome
transfer_outcome_not_queued none updated_at = refl
transfer_outcome_not_queued (some job) updated_at = ground arith

-- The three ways in which recording an event leaves the jobs.
abbrev pub JobsAfter : String → EventRecord → Database → EventWriteResult → Database → Type 0
JobsAfter job_id rec db outcome db' =
    IsQueued job_id rec db outcome db' ⊎ IsUpdated rec db outcome db' ⊎ IsUntouched db outcome db'

queues-JobsAfter :
    (job_id : String) (rec : EventRecord) (event : CreditedInvoiceEvent) (net_amount : ℤ)
    (db : Database) (outcome : EventWriteResult) (db' : Database)
    → rec.event ≡ credited_invoice event
    → rec.net_amount ≡ some net_amount
    → QueuesOrNot job_id event net_amount rec.received_at db outcome db'
    → JobsAfter job_id rec db outcome db'
queues-JobsAfter job_id rec event net_amount db outcome db' e n (inl (q, jobs, c)) = inl (record {
  event = event;
  net_amount = net_amount;
  outcome_lem = q;
  event_lem = e;
  net_amount_lem = n;
  jobs = jobs;
  constraints = c;
})
queues-JobsAfter job_id rec event net_amount db outcome db' e n (inr h) = inr (inr h)

module _ (job_id : String) (rec : EventRecord) where
  recover-JobsAfter :
      (event : VerifiedEvent) (net : Option ℤ) (db : Database) (outcome : EventWriteResult)
      (db' : Database)
      → rec.event ≡ event
      → rec.net_amount ≡ net
      → recover job_id rec event net db ≡ ok (outcome, db')
      → JobsAfter job_id rec db outcome db'
  unfolding recover
  recover-JobsAfter (credited_invoice event) (some net_amount) db outcome db' h n e =
      queues-JobsAfter job_id rec event net_amount db outcome db' h n
        (recover_cases job_id event net_amount rec.received_at rec db outcome db' e)
  recover-JobsAfter (credited_invoice event) none db outcome db' h n e = inr (inr (ground arith))
  recover-JobsAfter (ignored event) net db outcome db' h n e = inr (inr (ground arith))
  recover-JobsAfter (transfer_lifecycle event) net db outcome db' h n e = inr (inr (ground arith))

  credit-JobsAfter :
      (event : VerifiedEvent) (net : Option ℤ) (db : Database) (outcome : EventWriteResult)
      (db' : Database)
      → is_transfer event ≡ false
      → rec.event ≡ event
      → rec.net_amount ≡ net
      → credit job_id rec event net db ≡ ok (outcome, db')
      → JobsAfter job_id rec db outcome db'
  unfolding credit initial_outcome
  credit-JobsAfter (credited_invoice event) (some net_amount) db outcome db' other h n e =
      queues-JobsAfter job_id rec event net_amount db outcome db' h n
        (credit_cases job_id event net_amount rec.received_at db outcome db' e)
  credit-JobsAfter (credited_invoice event) none db outcome db' other h n e =
      inr (inr (ground arith))
  credit-JobsAfter (ignored event) net db outcome db' other h n e = inr (inr (ground arith))
  credit-JobsAfter (transfer_lifecycle event) net db outcome db' other h n e = cc

  JobsAfter-after :
      (db mid db' : Database) (outcome : EventWriteResult)
      → SameJobs db mid
      → JobsAfter job_id rec mid outcome db'
      → JobsAfter job_id rec db outcome db'
  JobsAfter-after db mid db' outcome e (inl h) = inl (record {
    event = h.event;
    net_amount = h.net_amount;
    outcome_lem = h.outcome_lem;
    event_lem = h.event_lem;
    net_amount_lem = h.net_amount_lem;
    jobs = rw e at h.jobs;
    constraints = h.constraints;
  })
  JobsAfter-after db mid db' outcome e (inr (inl h)) = inr (
      inl (record {
        event = h.event;
        outcome_lem = h.outcome_lem;
        event_lem = h.event_lem;
        not_stale = rw e at h.not_stale;
        jobs = rw e at h.jobs;
        constraints = h.constraints;
      }))
  JobsAfter-after db mid db' outcome e (inr (inr h)) =
      inr (inr (record { outcome_lem = h.outcome_lem; jobs = h.jobs ∙ e }))

  record_other-JobsAfter :
      (db : Database) (outcome : EventWriteResult) (db' : Database)
      → is_transfer rec.event ≡ false
      → record_other job_id rec db ≡ ok (outcome, db')
      → JobsAfter job_id rec db outcome db'
  unfolding record_other recover_duplicate
  record_other-JobsAfter db outcome db' other e =
      let first_outcome = initial_outcome rec.event rec.net_amount in
      let (inserted, mid, e₁, e₂) = bind_inv (insert_event rec first_outcome) _ db e in
      JobsAfter-after db mid db' outcome
        (insert_event-SameJobs rec first_outcome db inserted mid e₁)
        (elim (Bool-cases inserted) [
          | inl kept ↦
              credit-JobsAfter rec.event rec.net_amount mid outcome db' other refl refl
                (rw kept at e₂)
          | inr refused ↦
              recover-JobsAfter rec.event rec.net_amount mid outcome db' refl refl
                (rw refused at e₂)
        ])

  update_transfer-JobsAfter :
      (event : TransferLifecycleEvent) (db : Database) (first outcome : EventWriteResult)
      (db' : Database)
      → rec.event ≡ transfer_lifecycle event
      → first
        ≡ transfer_outcome
            (first_where (λ r. r.external_id == event.external_id) db.transfer_jobs)
            event.updated_at
      → update_transfer rec event first db ≡ ok (outcome, db')
      → JobsAfter job_id rec db outcome db'
  unfolding update_transfer
  update_transfer-JobsAfter event db first outcome db' h known e =
      elim (Bool-cases (is_transfer_updated first)) [
        | inl updates ↦
            let done = rw updates at e in
            inr (
              inl (record {
                event = event;
                outcome_lem = ground arith;
                event_lem = h;
                not_stale = rw known at updates;
                jobs = ground arith;
                constraints = ground arith;
              }))
        | inr updates_not ↦
            let done = rw updates_not at e in
            inr (
              inr (record {
                outcome_lem =
                    let never =
                      transfer_outcome_not_queued
                        (first_where (λ r. r.external_id == event.external_id) db.transfer_jobs)
                        event.updated_at in
                    ground arith;
                jobs = ground arith;
              }))
      ]

  record_transfer-JobsAfter :
      (event : TransferLifecycleEvent) (db : Database) (outcome : EventWriteResult) (db' : Database)
      → rec.event ≡ transfer_lifecycle event
      → record_transfer_event rec event db ≡ ok (outcome, db')
      → JobsAfter job_id rec db outcome db'
  unfolding record_transfer_event
  record_transfer-JobsAfter event db outcome db' h e =
      let first =
        transfer_outcome (first_where (λ r. r.external_id == event.external_id) db.transfer_jobs)
          event.updated_at in
      let (inserted, mid, e₁, e₂) = bind_inv (insert_event rec first) _ db e in
      let same_jobs = insert_event-SameJobs rec first db inserted mid e₁ in
      JobsAfter-after db mid db' outcome same_jobs (elim (Bool-cases inserted) [
        | inl kept ↦
            update_transfer-JobsAfter event mid first outcome db' h (rw same_jobs refl)
              (rw kept at e₂)
        | inr refused ↦ let done = rw refused at e₂ in inr (inr (ground arith))
      ])

  record_kind-JobsAfter :
      (event : VerifiedEvent) (db : Database) (outcome : EventWriteResult) (db' : Database)
      → rec.event ≡ event
      → record_kind job_id rec event db ≡ ok (outcome, db')
      → JobsAfter job_id rec db outcome db'
  unfolding record_kind
  record_kind-JobsAfter (transfer_lifecycle event) db outcome db' h e =
      record_transfer-JobsAfter event db outcome db' h e
  record_kind-JobsAfter (credited_invoice event) db outcome db' h e =
      record_other-JobsAfter db outcome db' (rw h refl) e
  record_kind-JobsAfter (ignored event) db outcome db' h e =
      record_other-JobsAfter db outcome db' (rw h refl) e

  -- When recording an event returns, then either the outcome is QUEUED, the event is a credited one
  -- with a net amount, and the jobs are the old ones and one more made from it; or the outcome is
  -- TRANSFER_UPDATED, the event is about a transfer and not older than what is stored, and the jobs
  -- are the old ones with what the event says; or the outcome is another one and the jobs are
  -- unchanged. Jobs that changed satisfy the constraints of their table.
  pub record_event-JobsAfter :
      (db : Database) (outcome : EventWriteResult) (db' : Database)
      → record_event job_id rec db ≡ ok (outcome, db')
      → JobsAfter job_id rec db outcome db'
  unfolding record_event
  record_event-JobsAfter db outcome db' e = record_kind-JobsAfter rec.event db outcome db' refl e
