-- ===== src/EventStore/Timeline.antt =====
-- `_record_transfer_event`: what the provider said last stays.
use starkbank_backend_challe.Base.{
  ℕ, suc, ◌<◌, ◌≡◌, refl, ◌⊎◌, eq_iff, inl, inr, Bool, true, false, not, ◌&&◌, Option, none, some,
  List, String, ◌==◌, arith, RowByRow, RowByRow-refl, RowByRow-update_fitting, every_unique,
  first_where, first_where_and, exists_where, is_unique, Option-cases,
}
use starkbank_backend_challe.Domain.Errors.{ok}
use starkbank_backend_challe.Domain.Events.{
  TransferLifecycleEvent, EventRecord, VerifiedEvent, transfer_lifecycle,
}
use starkbank_backend_challe.Domain.Status.{EventWriteResult, is_queued, is_transfer_updated}
use starkbank_backend_challe.Domain.Time.{Datetime, as_utc}
use starkbank_backend_challe.Schema.{Database, TransferJobRow, transfer_jobs_constraints}
use starkbank_backend_challe.EventStore.{is_stale, transfer_outcome, provider_said, record_event}
use starkbank_backend_challe.EventStore.Queueing.{IsUpdated}
use starkbank_backend_challe.EventStore.Jobs.{record_event-JobsAfter}
use starkbank_backend_challe.TransferStore.Constraints.{IsSameJob}

-- When the provider last said something of the job; never is before any instant.
unfoldable pub said_at : Option Datetime → ℕ
unfolding as_utc
said_at none = 0
said_at (some t) = suc (as_utc t)

-- The job has the word of the event, which is newer than the one it had, and is otherwise the same.
pub record IsToldBy (event : TransferLifecycleEvent) (x y : TransferJobRow) : Type 0 where
  pub of_job : x.external_id ≡ event.external_id
  pub newer : said_at x.provider_status_updated_at < said_at (some event.updated_at)
  pub transfer_id : y.provider_transfer_id ≡ some event.transfer_id
  pub provider_status : y.provider_status ≡ some event.status
  pub log_type : y.provider_log_type ≡ some event.log_type
  pub said : y.provider_status_updated_at ≡ some event.updated_at
  pub same : IsSameJob x y
  pub status : y.status ≡ x.status
  pub attempts : y.attempts ≡ x.attempts
  pub next_attempt_at : y.next_attempt_at ≡ x.next_attempt_at
  pub lease_until : y.lease_until ≡ x.lease_until
  pub last_error_code : y.last_error_code ≡ x.last_error_code

abbrev pub is_about : VerifiedEvent → TransferJobRow → Bool
is_about (transfer_lifecycle event) r = r.external_id == event.external_id
is_about _ r = false

-- The job is as it was, which a job that the event is about is not if the outcome is
-- TRANSFER_UPDATED; or it is told by the recorded event.
abbrev pub IsNewer : EventRecord → EventWriteResult → TransferJobRow → TransferJobRow → Type 0
IsNewer rec outcome x y =
    ((y ≡ x) × (is_transfer_updated outcome && is_about rec.event x ≡ false))
    ⊎ ((event : TransferLifecycleEvent) × (rec.event ≡ transfer_lifecycle event)
        × IsToldBy event x y)

fresh : TransferLifecycleEvent → TransferJobRow → Bool
fresh event r = not (is_stale r.provider_status_updated_at event.updated_at)

provider_said-IsToldBy :
    (rec : EventRecord) (event : TransferLifecycleEvent) (x : TransferJobRow)
    → x.external_id ≡ event.external_id
    → fresh event x ≡ true
    → IsToldBy event x (provider_said rec event x)
unfolding fresh is_stale provider_said said_at
provider_said-IsToldBy rec event x is h = elim (Option-cases x.provider_status_updated_at) [
  | inl e ↦ ground (arith, is, e)
  | inr (t, e) ↦ ground (arith, is, e)
]

updates-fresh :
    (event : TransferLifecycleEvent) (jobs : List TransferJobRow)
    → is_transfer_updated (
        transfer_outcome
          (first_where (λ r. r.external_id == event.external_id) jobs)
          event.updated_at)
      ≡ true
    → exists_where (λ r. r.external_id == event.external_id && fresh event r) jobs ≡ true
unfolding transfer_outcome fresh
updates-fresh event jobs h =
    elim (Option-cases (first_where (λ r. r.external_id == event.external_id) jobs)) [
      | inl e ↦ ground (arith, e)
      | inr (job, e) ↦
          let found = rw e at h in
          first_where_and (λ r. r.external_id == event.external_id) (fresh event) jobs job e
            (ground arith)
    ]

unique_external_ids :
    (jobs : List TransferJobRow)
    → transfer_jobs_constraints jobs ≡ true
    → is_unique (λ r. some r.external_id) jobs ≡ true
unfolding transfer_jobs_constraints
unique_external_ids jobs h = ground arith

updated-IsNewer :
    (rec : EventRecord) (db : Database) (outcome : EventWriteResult) (db' : Database)
    → transfer_jobs_constraints db.transfer_jobs ≡ true
    → IsUpdated rec db outcome db'
    → RowByRow (IsNewer rec outcome) db.transfer_jobs db'.transfer_jobs
updated-IsNewer rec db outcome db' h u = rw u.jobs (
    RowByRow-update_fitting (IsNewer rec outcome) (λ r. r.external_id == u.event.external_id)
      (fresh u.event) (provider_said rec u.event)
      (λ x other. inl (refl, rw (u.event_lem, other) (ground arith)))
      (λ x is newer. inr (
        u.event,
        u.event_lem,
        provider_said-IsToldBy rec u.event x ((eq_iff x.external_id u.event.external_id).0 is)
            newer,
      ))
      db.transfer_jobs
      (every_unique (λ r. some r.external_id) u.event.external_id (fresh u.event) db.transfer_jobs
        (unique_external_ids db.transfer_jobs h)
        (updates-fresh u.event db.transfer_jobs u.not_stale)))

-- On jobs that satisfy the constraints of their table, recording an event that queues nothing
-- leaves each job as it was, and not so a job that the event is about if the outcome is
-- TRANSFER_UPDATED; or the event is one about the job's transfer, newer than what the
-- provider had said of the job before, and the job then has the event's transfer, status, log type
-- and instant as the provider's word, with the same identity, amounts, status, attempts and lease.
pub record_event-IsNewer :
    (job_id : String) (rec : EventRecord) (db : Database) (outcome : EventWriteResult)
    (db' : Database)
    → transfer_jobs_constraints db.transfer_jobs ≡ true
    → is_queued outcome ≡ false
    → record_event job_id rec db ≡ ok (outcome, db')
    → RowByRow (IsNewer rec outcome) db.transfer_jobs db'.transfer_jobs
record_event-IsNewer job_id rec db outcome db' h other e =
    elim (record_event-JobsAfter job_id rec db outcome db' e) [
      | inl q ↦ let is = q.outcome_lem in absurd (ground arith)
      | inr (inl u) ↦ updated-IsNewer rec db outcome db' h u
      | inr (inr same) ↦ rw same.jobs (
          RowByRow-refl (IsNewer rec outcome)
            (λ x. let is = same.outcome_lem in inl (refl, ground arith)) db.transfer_jobs)
    ]
