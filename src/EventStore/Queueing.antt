-- ===== src/EventStore/Queueing.antt =====
-- `_queue_transfer` and what calls it: one job more, or none.
use starkbank_backend_challe.Base.{
  ℕ, ◌≡◌, ◌∙◌, ◌⊎◌, inl, inr, Bool, true, false, ◌||◌, some, [], ◌∷◌, ◌++◌, String, ◌==◌, arith,
  update_where, Bool-cases, first_where, exists_where,
}
use starkbank_backend_challe.Base.Int.{ℤ}
use starkbank_backend_challe.Domain.Errors.{ok}
use starkbank_backend_challe.Domain.Events.{
  CreditedInvoiceEvent, TransferLifecycleEvent, EventRecord, credited_invoice, transfer_lifecycle,
}
use starkbank_backend_challe.Domain.Status.{
  EventWriteResult, queued, duplicate_event, transfer_updated, is_queued, is_transfer_updated,
}
use starkbank_backend_challe.Schema.{Database, TransferJobRow, transfer_jobs_constraints}
use starkbank_backend_challe.Transaction.{pure, ◌>>=◌, ◌>>◌, bind_inv}
use starkbank_backend_challe.Base.Tests.{if◌then◌else◌}
use starkbank_backend_challe.EventStore.{
  set_outcome, mark_duplicate, mark_invoice_unknown, new_job, insert_job, queue_transfer,
  owns_invoice, enqueue, try_again, is_recoverable, requeue, transfer_outcome, provider_said,
}
use starkbank_backend_challe.EventStore.SameJobs.{SameJobs, owns_invoice-Same}

-- One job more, from the credited event and its net amount.
pub record IsQueued (job_id : String) (rec : EventRecord) (db : Database)
    (outcome : EventWriteResult) (db' : Database) : Type 0 where
  pub event : CreditedInvoiceEvent
  pub net_amount : ℤ
  pub outcome_lem : outcome ≡ queued
  pub event_lem : rec.event ≡ credited_invoice event
  pub net_amount_lem : rec.net_amount ≡ some net_amount
  pub jobs :
      db'.transfer_jobs ≡ db.transfer_jobs ++ new_job job_id event net_amount rec.received_at ∷ []
  pub constraints : transfer_jobs_constraints db'.transfer_jobs ≡ true

-- The same jobs, and for those with the transfer's external id what the provider says of it.
pub record IsUpdated (rec : EventRecord) (db : Database) (outcome : EventWriteResult)
    (db' : Database) : Type 0 where
  pub event : TransferLifecycleEvent
  pub outcome_lem : outcome ≡ transfer_updated
  pub event_lem : rec.event ≡ transfer_lifecycle event
  pub not_stale :
      is_transfer_updated (
        transfer_outcome
          (first_where (λ r. r.external_id == event.external_id) db.transfer_jobs)
          event.updated_at)
      ≡ true
  pub jobs :
      db'.transfer_jobs
      ≡ update_where
          (λ r. r.external_id == event.external_id)
          (provider_said rec event)
          db.transfer_jobs
  pub constraints : transfer_jobs_constraints db'.transfer_jobs ≡ true

pub record IsUntouched (db : Database) (outcome : EventWriteResult) (db' : Database) : Type 0 where
  pub outcome_lem : is_queued outcome || is_transfer_updated outcome ≡ false
  pub jobs : db'.transfer_jobs ≡ db.transfer_jobs

insert_job_cases :
    (job : TransferJobRow) (db : Database) (inserted : Bool) (db' : Database)
    → insert_job job db ≡ ok (inserted, db')
    → ((inserted ≡ true)
        × (db'.transfer_jobs ≡ db.transfer_jobs ++ job ∷ [])
        × (transfer_jobs_constraints db'.transfer_jobs ≡ true))
      ⊎ ((inserted ≡ false) × (db' ≡ db))
unfolding insert_job
insert_job_cases job db inserted db' e = ground arith

mark_duplicate-IsUntouched :
    (event_id : String) (db : Database) (outcome : EventWriteResult) (db' : Database)
    → mark_duplicate event_id db ≡ ok (outcome, db')
    → IsUntouched db outcome db'
unfolding mark_duplicate set_outcome
mark_duplicate-IsUntouched event_id db outcome db' e = ground arith

requeue_rest :
    (db : Database) (event_id : String) (first outcome : EventWriteResult) (mid db' : Database)
    → IsUntouched db first mid
    → (if is_queued first then (set_outcome event_id queued >> pure queued) else pure first) mid
      ≡ ok (outcome, db')
    → IsUntouched db outcome db'
requeue_rest db event_id first outcome mid db' h e = elim (Bool-cases (is_queued first)) [
  | inl queues ↦ let none_queued = h.outcome_lem in ground arith
  | inr queues_not ↦
      let done = rw queues_not at e in
      let none_queued = h.outcome_lem in let jobs = h.jobs in ground arith
]

module _ (job_id : String) (event : CreditedInvoiceEvent) (net_amount : ℤ) (at : ℕ) where
  abbrev pub QueuesOrNot : Database → EventWriteResult → Database → Type 0
  QueuesOrNot db outcome db' =
      ((outcome ≡ queued)
        × (db'.transfer_jobs ≡ db.transfer_jobs ++ new_job job_id event net_amount at ∷ [])
        × (transfer_jobs_constraints db'.transfer_jobs ≡ true))
      ⊎ IsUntouched db outcome db'

  -- After steps that leave the jobs alone.
  QueuesOrNot-after :
      (db mid db' : Database) (outcome : EventWriteResult)
      → SameJobs db mid
      → QueuesOrNot mid outcome db'
      → QueuesOrNot db outcome db'
  QueuesOrNot-after db mid db' outcome e (inl (q, jobs, c)) = inl (q, rw e at jobs, c)
  QueuesOrNot-after db mid db' outcome e (inr h) =
      inr (record { outcome_lem = h.outcome_lem; jobs = h.jobs ∙ e })

  queue_transfer_cases :
      (db : Database) (outcome : EventWriteResult) (db' : Database)
      → queue_transfer job_id event net_amount at db ≡ ok (outcome, db')
      → QueuesOrNot db outcome db'
  unfolding queue_transfer enqueue
  queue_transfer_cases db outcome db' e =
      elim (Bool-cases (exists_where (λ r. r.invoice_id == event.invoice_id) db.transfer_jobs)) [
        | inl present ↦
            inr (mark_duplicate-IsUntouched event.event_id db outcome db' (rw present at e))
        | inr absent ↦
            let (inserted, mid, first, rest) =
              bind_inv (insert_job (new_job job_id event net_amount at)) _ db (rw absent at e) in
            elim (insert_job_cases (new_job job_id event net_amount at) db inserted mid first) [
              | inl (kept, jobs, constraints) ↦ let done = rw kept at rest in inl (ground arith)
              | inr (refused, back) ↦ inr (
                  mark_duplicate-IsUntouched event.event_id db outcome db'
                    (rw (refused, back) at rest))
            ]
      ]

  requeue_cases :
      (db : Database) (outcome : EventWriteResult) (db' : Database)
      → requeue job_id event net_amount at db ≡ ok (outcome, db')
      → QueuesOrNot db outcome db'
  unfolding requeue set_outcome
  requeue_cases db outcome db' e =
      let (first, mid, e₁, e₂) = bind_inv (queue_transfer job_id event net_amount at) _ db e in
      elim (queue_transfer_cases db first mid e₁) [
        | inl (kept, jobs, constraints) ↦ let done = rw kept at e₂ in inl (ground arith)
        | inr h ↦ inr (requeue_rest db event.event_id first outcome mid db' h e₂)
      ]

  try_again_cases :
      (db : Database) (outcome : EventWriteResult) (db' : Database)
      → try_again job_id event net_amount at db ≡ ok (outcome, db')
      → QueuesOrNot db outcome db'
  unfolding try_again
  try_again_cases db outcome db' e =
      let (owned, mid, e₁, e₂) = bind_inv (owns_invoice event at) _ db e in
      QueuesOrNot-after db mid db' outcome (owns_invoice-Same event at db owned mid e₁).0
        (elim (Bool-cases owned) [
          | inl kept ↦ requeue_cases mid outcome db' (rw kept at e₂)
          | inr not_kept ↦ let done = rw not_kept at e₂ in inr (ground arith)
        ])

  pub recover_cases :
      (rec : EventRecord) (db : Database) (outcome : EventWriteResult) (db' : Database)
      → (if is_recoverable rec (first_where (λ r. r.id == event.event_id) db.webhook_events)
            then try_again job_id event net_amount at
            else pure duplicate_event)
          db
        ≡ ok (outcome, db')
      → QueuesOrNot db outcome db'
  recover_cases rec db outcome db' e =
      elim (Bool-cases
        (is_recoverable rec (first_where (λ r. r.id == event.event_id) db.webhook_events))) [
          | inl kept ↦ try_again_cases db outcome db' (rw kept at e)
          | inr not_kept ↦ let done = rw not_kept at e in inr (ground arith)
        ]

  pub credit_cases :
      (db : Database) (outcome : EventWriteResult) (db' : Database)
      → (owns_invoice event at >>= λ owned.
            if owned
            then queue_transfer job_id event net_amount at
            else mark_invoice_unknown event.event_id)
          db
        ≡ ok (outcome, db')
      → QueuesOrNot db outcome db'
  unfolding mark_invoice_unknown set_outcome
  credit_cases db outcome db' e =
      let (owned, mid, e₁, e₂) = bind_inv (owns_invoice event at) _ db e in
      QueuesOrNot-after db mid db' outcome (owns_invoice-Same event at db owned mid e₁).0
        (elim (Bool-cases owned) [
          | inl kept ↦ queue_transfer_cases mid outcome db' (rw kept at e₂)
          | inr not_kept ↦ let done = rw not_kept at e₂ in inr (ground arith)
        ])
