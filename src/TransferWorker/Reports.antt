-- ===== src/TransferWorker/Reports.antt =====
-- What the worker returns is what the database says of the job.
use mathlib.Core.Bool.{false≢true}
use starkbank_backend_challe.Base.{
  ℕ, ◌+◌, ◌≡◌, refl, ◌∙◌, sym, subst, inl, inr, Bool, true, Option, none, some, String, All, arith,
  ◌==◌, Bool-cases, Option-cases, first_where, update_where, exists_where, first_where-none,
  first_where_holds, first_where-update_where, update_where_agree,
}
use starkbank_backend_challe.Base.Select.{OrderBy}
use starkbank_backend_challe.Domain.Errors.{Result, ok, err, provider, class_name}
use starkbank_backend_challe.Domain.Models.{
  JobClaim, TransferJob, TransferCommand, ProviderTransfer,
}
use starkbank_backend_challe.Domain.Status.{TransferStatus}
use starkbank_backend_challe.Domain.Transfer.{build_transfer_command}
use starkbank_backend_challe.Schema.{Database, TransferJobRow, transfer_jobs_constraints}
use starkbank_backend_challe.Service.{transact, pure, ◌>>◌, transact-ok, transact-err}
use starkbank_backend_challe.Domain.Errors.{Result-cases}
use starkbank_backend_challe.TransferStore.{
  JobFinish, claim, holds_lease, finished, finish_job, mark_succeeded, mark_retry, mark_unknown,
  mark_failed, succeeded_finish, error_finish,
}
use starkbank_backend_challe.TransferStore.Fencing.{claimed_holds, claimed_exists}
use starkbank_backend_challe.TransferWorker.{
  WorkerResult, idle, succeeded, retry_scheduled, reconciliation_scheduled, permanent_failure,
  live_disabled, TransferWorker, WorkerEnv, backoff, finish_succeeded, finish_failed, finish_retry,
  finish_unknown, settle_lookup, finalize_after_lookup, handle_timeout, handle_transient,
  handle_permanent, settle_reconciliation, reconcile_unknown, settle_transfer, ensure,
  process_claimed, fetch,
}

-- The status that the table has for a job.
abbrev pub stored_status : String → Database → Option TransferStatus
stored_status id db = elim (first_where (λ x. x.id == id) db.transfer_jobs) [
  | none ↦ none
  | some r ↦ some r.status
]

-- The status that a result of `process_claimed` announces.
abbrev pub reported : WorkerResult → Option TransferStatus
reported succeeded = some TransferStatus.succeeded
reported permanent_failure = some TransferStatus.permanent_failure
reported retry_scheduled = some TransferStatus.pending
reported reconciliation_scheduled = some TransferStatus.unknown
reported idle = none
reported live_disabled = none

abbrev pub Reports : {W : Type 0} → String → Result WorkerResult × Database × W → Type 0
Reports id (ok r, db, _) = stored_status id db ≡ reported r
Reports id (err _, _, _) = Unit

-- The job is in the table, and is held under the lease that the worker has.
pub record IsHeld (job : TransferJob) (db : Database) : Type 0 where
  pub held : All (λ x. holds_lease job x ≡ (x.id == job.id)) db.transfer_jobs
  pub present : exists_where (λ x. x.id == job.id) db.transfer_jobs ≡ true

pub claim-IsHeld :
    (sql : OrderBy) (locked : TransferJobRow → Bool) (c : JobClaim) (db db' : Database)
    (job : TransferJob)
    → claim sql locked c db ≡ ok (some job, db')
    → IsHeld job db'
claim-IsHeld sql locked c db db' job e = record {
  held = claimed_holds sql locked c db db' job e;
  present = claimed_exists sql locked c db db' job e;
}

finished_status :
    (job : TransferJob) (finish : JobFinish) (db : Database)
    → IsHeld job db
    → stored_status job.id (record db {
      transfer_jobs = update_where (holds_lease job) (finished finish) db.transfer_jobs;
    })
      ≡ some finish.status
unfolding finished
finished_status job finish db h =
    elim (Option-cases (first_where (λ x. x.id == job.id) db.transfer_jobs)) [
      | inl e ↦
          absurd (
            false≢true
              (sym (first_where-none (λ x. x.id == job.id) db.transfer_jobs e) ∙ h.present))
      | inr (r, e) ↦
          rw
            (update_where_agree (holds_lease job) (λ x. x.id == job.id) (finished finish)
              db.transfer_jobs h.held)
            (let found =
                first_where-update_where (λ x. x.id == job.id) (λ x. x.id == job.id)
                  (finished finish) (λ x. refl) db.transfer_jobs r e in
              ground
                (arith, found, first_where_holds (λ x. x.id == job.id) db.transfer_jobs {a = r} e))
    ]

-- A transaction that ends the job leaves the status that it was asked to leave.
finish_job_status :
    (job : TransferJob) (finish : JobFinish) (db db' : Database) (b : Bool)
    → IsHeld job db
    → finish_job job finish db ≡ ok (b, db')
    → stored_status job.id db' ≡ some finish.status
unfolding finish_job
finish_job_status job finish db db' b h e =
    elim (Bool-cases (
      transfer_jobs_constraints
        (update_where (holds_lease job) (finished finish) db.transfer_jobs))) [
          | inl kept ↦
              let same : db'.transfer_jobs
                  ≡ update_where (holds_lease job) (finished finish) db.transfer_jobs =
                ground arith in
              rw same (finished_status job finish db h)
          | inr refused ↦ ground arith
        ]

module _ {W : Type 0} (worker : TransferWorker) (env : WorkerEnv W)
    (quiet : (w : W) (db : Database) → env.meanwhile w db ≡ db) (job : TransferJob) where
  ending-Reports :
      (finish : JobFinish) (r : WorkerResult) (db : Database) (w : W)
      → IsHeld job db
      → reported r ≡ some finish.status
      → Reports job.id ((transact (finish_job job finish) >> pure r) db w)
  ending-Reports finish r db w h same = elim (Result-cases (finish_job job finish db)) [
    | inl ((b, db'), e) ↦
        subst (Reports {W = W} job.id)
          (sym (transact-ok (finish_job job finish) (λ _. pure r) db w e))
          (finish_job_status job finish db db' b h e ∙ sym same)
    | inr (x, e) ↦
        subst (Reports {W = W} job.id)
          (sym (transact-err (finish_job job finish) (λ _. pure r) db w e)) tt
  ]

  finish_succeeded-Reports :
      (transfer : ProviderTransfer) (now : ℕ) (db : Database) (w : W)
      → IsHeld job db
      → Reports job.id (finish_succeeded worker env job transfer now db w)
  unfolding finish_succeeded mark_succeeded succeeded_finish
  finish_succeeded-Reports transfer now db w h =
      ending-Reports (succeeded_finish transfer now) succeeded db w h refl

  finish_failed-Reports :
      (code : String) (now : ℕ) (db : Database) (w : W)
      → IsHeld job db
      → Reports job.id (finish_failed worker env job code now db w)
  unfolding finish_failed mark_failed error_finish
  finish_failed-Reports code now db w h =
      ending-Reports (error_finish TransferStatus.permanent_failure code now now) permanent_failure
        db w h refl

  finish_retry-Reports :
      (code : String) (now : ℕ) (db : Database) (w : W)
      → IsHeld job db
      → Reports job.id (finish_retry worker env job code now db w)
  unfolding finish_retry mark_retry error_finish
  finish_retry-Reports code now db w h =
      ending-Reports (error_finish TransferStatus.pending code now (now + backoff worker job))
        retry_scheduled db w h refl

  finish_unknown-Reports :
      (code : String) (now : ℕ) (db : Database) (w : W)
      → IsHeld job db
      → Reports job.id (finish_unknown worker env job code now db w)
  unfolding finish_unknown mark_unknown error_finish
  finish_unknown-Reports code now db w h =
      ending-Reports (error_finish TransferStatus.unknown code now (now + backoff worker job))
        reconciliation_scheduled db w h refl

  settle_lookup-Reports :
      (now : ℕ) (found : Result (Option ProviderTransfer)) (db : Database) (w : W)
      → IsHeld job db
      → Reports job.id (settle_lookup worker env job now found db w)
  unfolding settle_lookup
  settle_lookup-Reports now (ok (some transfer)) db w h =
      finish_succeeded-Reports transfer now db w h
  settle_lookup-Reports now (ok none) db w h = finish_failed-Reports "retry_exhausted" now db w h
  settle_lookup-Reports now (err (provider e)) db w h =
      ground (arith, finish_failed-Reports "retry_exhausted" now db w h)
  settle_lookup-Reports now (err _) db w h = tt

  settle_reconciliation-Reports :
      (now : ℕ) (found : Result (Option ProviderTransfer)) (db : Database) (w : W)
      → IsHeld job db
      → Reports job.id (settle_reconciliation worker env job now found db w)
  unfolding settle_reconciliation
  settle_reconciliation-Reports now (ok (some transfer)) db w h =
      finish_succeeded-Reports transfer now db w h
  settle_reconciliation-Reports now (ok none) db w h = ground (
    arith,
    finish_failed-Reports "retry_exhausted" now db w h,
    finish_retry-Reports "reconciliation_not_found" now db w h,
  )
  settle_reconciliation-Reports now (err (provider e)) db w h = ground (
    arith,
    finish_failed-Reports "retry_exhausted" now db w h,
    finish_failed-Reports (class_name e) now db w h,
    finish_unknown-Reports (class_name e) now db w h,
  )
  settle_reconciliation-Reports now (err _) db w h = tt

  finalize-Reports :
      (command : TransferCommand) (now : ℕ) (db : Database) (w : W)
      → IsHeld job db
      → Reports job.id (finalize_after_lookup worker env job command now db w)
  unfolding finalize_after_lookup fetch
  finalize-Reports command now db w h =
      let (found, w') = env.find_transfer command w in
      rw (quiet w' db) (settle_lookup-Reports now found db w' h)

  reconcile-Reports :
      (command : TransferCommand) (now : ℕ) (db : Database) (w : W)
      → IsHeld job db
      → Reports job.id (reconcile_unknown worker env job command now db w)
  unfolding reconcile_unknown fetch
  reconcile-Reports command now db w h =
      let (found, w') = env.find_transfer command w in
      rw (quiet w' db) (settle_reconciliation-Reports now found db w' h)

  settle_transfer-Reports :
      (command : TransferCommand) (now : ℕ) (outcome : Result ProviderTransfer) (db : Database)
      (w : W)
      → IsHeld job db
      → Reports job.id (settle_transfer worker env job command now outcome db w)
  unfolding settle_transfer handle_timeout handle_transient handle_permanent
  settle_transfer-Reports command now (ok transfer) db w h =
      finish_succeeded-Reports transfer now db w h
  settle_transfer-Reports command now (err (provider e)) db w h = ground (
    arith,
    finalize-Reports command now db w h,
    finish_unknown-Reports (class_name e) now db w h,
    finish_retry-Reports (class_name e) now db w h,
    finish_failed-Reports (class_name e) now db w h,
  )
  settle_transfer-Reports command now (err _) db w h = tt

  ensure-Reports :
      (command : TransferCommand) (now : ℕ) (db : Database) (w : W)
      → IsHeld job db
      → Reports job.id (ensure worker env job command now db w)
  unfolding ensure
  ensure-Reports command now db w h =
      let (outcome, w') = env.ensure_transfer command w in
      rw (quiet w' db) (settle_transfer-Reports command now outcome db w' h)

  -- While nobody else writes, whatever a call of `process_claimed` returns for a held job is what
  -- the table then says of it: a success is stored as SUCCEEDED, a failure as PERMANENT_FAILURE, a
  -- retry as PENDING and a reconciliation as UNKNOWN.
  pub process_claimed-Reports :
      (now : ℕ) (db : Database) (w : W)
      → IsHeld job db
      → Reports job.id (process_claimed worker env job now db w)
  unfolding process_claimed
  process_claimed-Reports now db w h =
      let command = build_transfer_command job.invoice_id job.net_amount in
      ground (arith, reconcile-Reports command now db w h, ensure-Reports command now db w h)
