-- ===== src/TransferStore/Lifecycle.antt =====
-- The life of a transfer job under any calls of the store, by any number of workers. Each call is
-- one transaction, so a list of calls is an interleaving of the workers.
use starkbank_backend_challe.Base.{
  ℕ, ◌+◌, ◌≡◌, ◌&&◌, eq_refl, every_unique, exists_where, is_unique, if◌then◌else◌, Option,
  RowByRow-compose, RowByRow-update_fitting, refl, ◌∙◌, Bool, true, false, some, List, [], ◌∷◌,
  arith, String, ◌==◌, update_where, RowByRow, RowByRow-update_where, RowByRow-refl, ◌⊎◌, inl, inr,
}
use starkbank_backend_challe.Base.Select.{OrderBy, mem-exists_where}
use starkbank_backend_challe.Domain.Errors.{Result, ok}
use starkbank_backend_challe.Domain.Models.{JobClaim, TransferJob, ProviderTransfer}
use starkbank_backend_challe.Domain.Status.{
  TransferStatus, pending, processing, unknown, succeeded, permanent_failure,
}
use starkbank_backend_challe.Schema.{Database, TransferJobRow, transfer_jobs_constraints}
use starkbank_backend_challe.Transaction.{commit, commit_ok}
use starkbank_backend_challe.TransferStore.{
  JobFinish, is_due, take_lease, claimed_job, claim, holds_lease, finished, finish_job, refreshed,
  refresh_provider_status, mark_succeeded, mark_retry, mark_unknown, mark_failed, succeeded_finish,
  error_finish,
}
use starkbank_backend_challe.TransferStore.Claim.{claim_cases}
use starkbank_backend_challe.TransferStore.Fencing.{unique_ids}
use starkbank_backend_challe.TransferStore.Constraints.{IsSameJob, constraints-update_same}

-- The state machine: a waiting job may be claimed, and a claimed one may end in any way or be
-- claimed again; a job that has succeeded or failed for good stays so.
abbrev pub may_become : TransferStatus → TransferStatus → Bool
may_become pending pending = true
may_become pending processing = true
may_become unknown unknown = true
may_become unknown processing = true
may_become processing _ = true
may_become succeeded succeeded = true
may_become permanent_failure permanent_failure = true
may_become _ _ = false

abbrev pub is_final : TransferStatus → Bool
is_final succeeded = true
is_final permanent_failure = true
is_final _ = false

pub data StoreCall : Type 0 where
  claims : (TransferJobRow → Bool) → JobClaim → StoreCall
  succeeds : TransferJob → ProviderTransfer → ℕ → StoreCall
  retries : TransferJob → String → ℕ → ℕ → StoreCall
  leaves_unknown : TransferJob → String → ℕ → ℕ → StoreCall
  fails : TransferJob → String → ℕ → StoreCall
  refreshes : String → ProviderTransfer → ℕ → StoreCall

abbrev pub step : OrderBy → StoreCall → Database → Database
step sql (claims locked c) db = (commit (claim sql locked c) db).1
step sql (succeeds job transfer now) db = (commit (mark_succeeded job transfer now) db).1
step sql (retries job code now delay) db = (commit (mark_retry job code now delay) db).1
step sql (leaves_unknown job code now delay) db = (commit (mark_unknown job code now delay) db).1
step sql (fails job code now) db = (commit (mark_failed job code now) db).1
step sql (refreshes id transfer now) db = (commit (refresh_provider_status id transfer now) db).1

pub run : OrderBy → List StoreCall → Database → Database
run sql [] db = db
run sql (call ∷ calls) db = run sql calls (step sql call db)

-- How often a call hands out the job with an id: once, or not at all.
abbrev pub handed_to : Result (Option TransferJob × Database) → String → ℕ
handed_to (ok (some job, _)) id = if id == job.id then 1 else 0
handed_to _ id = 0

abbrev pub hands_out : OrderBy → StoreCall → Database → String → ℕ
hands_out sql (claims locked c) db id = handed_to (claim sql locked c db) id
hands_out sql _ db id = 0

-- How often the claims among the calls hand out the job with an id.
unfoldable pub handed_out : OrderBy → List StoreCall → Database → String → ℕ
handed_out sql [] db id = 0
handed_out sql (call ∷ calls) db id =
    hands_out sql call db id + handed_out sql calls (step sql call db) id

-- `count` says how often the job with an id has been handed out meanwhile.
pub record JobMoves (count : String → ℕ) (x y : TransferJobRow) : Type 0 where
  pub same : IsSameJob x y
  pub attempts : y.attempts ≡ x.attempts + count x.id
  pub status : may_become x.status y.status ≡ true

-- What holds over any number of moves.
pub record JobKeeps (count : String → ℕ) (x y : TransferJobRow) : Type 0 where
  pub same : IsSameJob x y
  pub attempts : y.attempts ≡ x.attempts + count x.id
  pub final : is_final x.status ≡ true → y.status ≡ x.status

abbrev never : String → ℕ
never id = 0

JobMoves-refl : (x : TransferJobRow) → JobMoves never x x
JobMoves-refl x = ground arith

JobKeeps-trans :
    (first later : String → ℕ) (x y z : TransferJobRow)
    → JobMoves first x y
    → JobKeeps later y z
    → JobKeeps (λ id. first id + later id) x z
JobKeeps-trans first later x y z h k = record {
  same = ground (arith, h.same, k.same);
  attempts = rw (k.attempts, h.attempts, h.same.id) (omega arith);
  final = λ done.
      let kept : y.status ≡ x.status = ground (arith, h.status, done) in
      k.final (rw kept done) ∙ kept;
}

take_lease-JobMoves :
    (count : String → ℕ) (c : JobClaim) (x : TransferJobRow)
    → count x.id ≡ 1
    → is_due c.now x ≡ true
    → JobMoves count x (take_lease c x)
unfolding take_lease is_due
take_lease-JobMoves count c x once h = ground (arith, once)

finished-JobMoves :
    (job : TransferJob) (finish : JobFinish) (x : TransferJobRow)
    → holds_lease job x ≡ true
    → JobMoves never x (finished finish x)
unfolding finished holds_lease
finished-JobMoves job finish x h = ground arith

refreshed-JobMoves :
    (transfer : ProviderTransfer) (now : ℕ) (x : TransferJobRow)
    → JobMoves never x (refreshed transfer now x)
unfolding refreshed
refreshed-JobMoves transfer now x = ground arith

abbrev pub Moves : (String → ℕ) → Database → Database → Type 0
Moves count db db' = RowByRow (JobMoves count) db.transfer_jobs db'.transfer_jobs

-- A statement that the database refuses leaves the table as it was.
update-Moves :
    (p : TransferJobRow → Bool) (f : TransferJobRow → TransferJobRow)
    → ((x : TransferJobRow) → p x ≡ true → JobMoves never x (f x))
    → (rows rows' : List TransferJobRow) → (rows' ≡ rows) ⊎ (rows' ≡ update_where p f rows)
    → RowByRow (JobMoves never) rows rows'
update-Moves p f move rows rows' (inl e) = rw e (RowByRow-refl (JobMoves never) JobMoves-refl rows)
update-Moves p f move rows rows' (inr e) =
    rw e (RowByRow-update_where (JobMoves never) p f JobMoves-refl move rows)

finish_job-Moves :
    (job : TransferJob) (finish : JobFinish) (db : Database)
    → Moves never db (commit (finish_job job finish) db).1
unfolding finish_job
finish_job-Moves job finish db =
    update-Moves (holds_lease job) (finished finish) (finished-JobMoves job finish) db.transfer_jobs
      _ (ground arith)

refresh-Moves :
    (id : String) (transfer : ProviderTransfer) (now : ℕ) (db : Database)
    → Moves never db (commit (refresh_provider_status id transfer now) db).1
unfolding refresh_provider_status
refresh-Moves id transfer now db =
    update-Moves (λ r. r.id == id) (refreshed transfer now)
      (λ x _. refreshed-JobMoves transfer now x) db.transfer_jobs _ (ground arith)

taken_row-JobMoves :
    (c : JobClaim) (id : String) (rows : List TransferJobRow)
    → is_unique (λ r. some r.id) rows ≡ true
    → exists_where (λ x. x.id == id && is_due c.now x) rows ≡ true
    → RowByRow
        (JobMoves (λ i. if i == id then 1 else 0))
        rows
        (update_where (λ x. x.id == id) (take_lease c) rows)
taken_row-JobMoves c id rows unique due =
    RowByRow-update_fitting (JobMoves (λ i. if i == id then 1 else 0)) (λ x. x.id == id)
      (is_due c.now) (take_lease c) (λ x other. ground (arith, other))
      (λ x hit fits. take_lease-JobMoves (λ i. if i == id then 1 else 0) c x (rw hit refl) fits)
      rows (every_unique (λ x. some x.id) id (is_due c.now) rows unique due)

claim-Moves :
    (sql : OrderBy) (locked : TransferJobRow → Bool) (c : JobClaim) (db : Database)
    → transfer_jobs_constraints db.transfer_jobs ≡ true
    → Moves (handed_to (claim sql locked c db)) db (commit (claim sql locked c) db).1
unfolding claimed_job
claim-Moves sql locked c db consistent = elim (claim_cases sql locked c db) [
  | inl (e, _) ↦
      rw (commit_ok (claim sql locked c) db e, e)
        (RowByRow-refl (JobMoves never) JobMoves-refl db.transfer_jobs)
  | inr (r, next, e) ↦
      rw (commit_ok (claim sql locked c) db e, e)
        (taken_row-JobMoves c r.id db.transfer_jobs (unique_ids db.transfer_jobs consistent) (
          mem-exists_where (λ x. x.id == r.id && is_due c.now x) r db.transfer_jobs next.stored
            (rw (eq_refl r.id, next.due) refl)))
]

-- On a table that satisfies its constraints, every call of the store moves each job along the
-- state machine `may_become`, and keeps what identifies it, its amounts, and the order of the
-- table. A job has one attempt more if the call is a claim that returns it, and as many as before
-- otherwise.
pub step-Moves :
    (sql : OrderBy) (call : StoreCall) (db : Database)
    → transfer_jobs_constraints db.transfer_jobs ≡ true
    → Moves (hands_out sql call db) db (step sql call db)
unfolding mark_succeeded mark_retry mark_unknown mark_failed refresh_provider_status
step-Moves sql (claims locked c) db h = claim-Moves sql locked c db h
step-Moves sql (succeeds job transfer now) db h =
    finish_job-Moves job (succeeded_finish transfer now) db
step-Moves sql (retries job code now delay) db h =
    finish_job-Moves job (error_finish pending code now (now + delay)) db
step-Moves sql (leaves_unknown job code now delay) db h =
    finish_job-Moves job (error_finish unknown code now (now + delay)) db
step-Moves sql (fails job code now) db h =
    finish_job-Moves job (error_finish permanent_failure code now now) db
step-Moves sql (refreshes id transfer now) db h = refresh-Moves id transfer now db

claim-constraints :
    (sql : OrderBy) (locked : TransferJobRow → Bool) (c : JobClaim) (db : Database)
    → transfer_jobs_constraints db.transfer_jobs ≡ true
    → transfer_jobs_constraints (commit (claim sql locked c) db).1.transfer_jobs ≡ true
claim-constraints sql locked c db h = elim (claim_cases sql locked c db) [
  | inl (e, _) ↦ rw (commit_ok (claim sql locked c) db e) h
  | inr (r, next, e) ↦ rw (commit_ok (claim sql locked c) db e) (
      unfold take_lease in
      constraints-update_same (λ x. x.id == r.id) (take_lease c) (λ x. ground arith)
        db.transfer_jobs (λ x. refl) h)
]

-- Every call keeps the constraints of the table.
pub step-constraints :
    (sql : OrderBy) (call : StoreCall) (db : Database)
    → transfer_jobs_constraints db.transfer_jobs ≡ true
    → transfer_jobs_constraints (step sql call db).transfer_jobs ≡ true
unfolding finish_job mark_succeeded mark_retry mark_unknown mark_failed refresh_provider_status
step-constraints sql (claims locked c) db h = claim-constraints sql locked c db h
step-constraints sql _ db h = ground arith

-- From a table that satisfies its constraints, whatever calls the workers make and in whatever
-- order, a job that has succeeded or failed for good keeps that status; no job changes its
-- identity or its amounts, is lost or is added; and the attempts of each job have grown by the
-- number of claims that returned it. At the end the table satisfies its constraints.
pub run-JobKeeps :
    (sql : OrderBy) (calls : List StoreCall) (db : Database)
    → transfer_jobs_constraints db.transfer_jobs ≡ true
    → RowByRow
        (JobKeeps (handed_out sql calls db))
        db.transfer_jobs
        (run sql calls db).transfer_jobs
      × (transfer_jobs_constraints (run sql calls db).transfer_jobs ≡ true)
unfolding run handed_out
run-JobKeeps sql [] db h = (RowByRow-refl (JobKeeps never) (λ x. ground arith) db.transfer_jobs, h)
run-JobKeeps sql (call ∷ calls) db h =
    let rest = run-JobKeeps sql calls (step sql call db) (step-constraints sql call db h) in
    (
      RowByRow-compose (JobMoves (hands_out sql call db))
          (JobKeeps (handed_out sql calls (step sql call db)))
          (JobKeeps (handed_out sql (call ∷ calls) db))
          (JobKeeps-trans (hands_out sql call db) (handed_out sql calls (step sql call db))) _ _ _
          (step-Moves sql call db h) rest.0,
      rest.1,
    )
