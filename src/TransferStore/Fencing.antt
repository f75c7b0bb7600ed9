-- ===== src/TransferStore/Fencing.antt =====
-- `TransferStore._finish`: a worker ends a job only while it holds the lease of its own claim.
use starkbank_backend_challe.Base.{
  ℕ, ◌≡◌, ◌≢◌, ◌∙◌, inl, inr, Bool, true, false, ◌&&◌, some, List, All, arith, ◌==◌, eq_iff,
  eq_refl, holds_at, exists_where-update, Bool-cases, exists_where, update_where, count_where-none,
  count_where_agree, count_where_unique, update_where_missing, update_where_agree, is_unique,
}
use starkbank_backend_challe.Base.Select.{OrderBy, All-of_mem, exists_where-false, mem-exists_where}
use starkbank_backend_challe.Domain.Errors.{ok}
use starkbank_backend_challe.Domain.Models.{JobClaim, TransferJob}
use starkbank_backend_challe.Domain.Status.{is_processing}
use starkbank_backend_challe.Schema.{Database, TransferJobRow, transfer_jobs_constraints}
use starkbank_backend_challe.TransferStore.{
  JobFinish, take_lease, claimed_job, claim, holds_lease, finished, finish_job,
}
use starkbank_backend_challe.TransferStore.Claim.{claim_cases, after_claim, claimed_rows}

-- A row leased by a claim is held by a job exactly if the job's lease is that of the claim.
holds_lease-take_lease :
    (c : JobClaim) (job : TransferJob) (x : TransferJobRow)
    → job.lease_until ≢ c.lease_until
    → holds_lease job (take_lease c x) ≡ false
unfolding holds_lease take_lease
holds_lease-take_lease c job x h = ground arith

finish_not_held :
    (job : TransferJob) (finish : JobFinish) (db : Database)
    → transfer_jobs_constraints db.transfer_jobs ≡ true
    → exists_where (holds_lease job) db.transfer_jobs ≡ false
    → finish_job job finish db ≡ ok (false, db)
unfolding finish_job
finish_not_held job finish db consistent h = ground (
  arith,
  update_where_missing (holds_lease job) (finished finish) db.transfer_jobs h,
  count_where-none (holds_lease job) db.transfer_jobs h,
)

holds_lease-id : (job : TransferJob) (x : TransferJobRow) → holds_lease job x ≡ true → x.id ≡ job.id
unfolding holds_lease
holds_lease-id job x h = ground (arith, eq_iff x.id job.id)

-- Once a job has been claimed again under another lease, the worker of the older claim can no
-- longer end it: on a table that satisfies its constraints, whatever it reports, the call returns
-- false and the database stays as it is.
pub finish_stale :
    (sql : OrderBy) (locked : TransferJobRow → Bool) (c : JobClaim) (db db' : Database)
    (older newer : TransferJob) (finish : JobFinish)
    → claim sql locked c db ≡ ok (some newer, db')
    → older.id ≡ newer.id
    → older.lease_until ≢ c.lease_until
    → transfer_jobs_constraints db'.transfer_jobs ≡ true
    → finish_job older finish db' ≡ ok (false, db')
finish_stale sql locked c db db' older newer finish e same other consistent =
    finish_not_held older finish db' consistent (
      exists_where-false (holds_lease older) db'.transfer_jobs λ x m.
        elim (Bool-cases (holds_lease older x)) [
          | inl held ↦
              claimed_rows c (holds_lease older) false (λ y. holds_lease-take_lease c older y other)
                sql locked db db' newer e x m (holds_lease-id older x held ∙ same)
          | inr free ↦ free
        ])

claimed_lease :
    (sql : OrderBy) (locked : TransferJobRow → Bool) (c : JobClaim) (db db' : Database)
    (job : TransferJob)
    → claim sql locked c db ≡ ok (some job, db')
    → job.lease_until ≡ c.lease_until
unfolding claimed_job
claimed_lease sql locked c db db' job e = elim (claim_cases sql locked c db) [
  | inl idle ↦ cc (idle.0)
  | inr (r, next, taken) ↦ cc
]

abbrev held_until : ℕ → TransferJobRow → Bool
held_until instant x = is_processing x.status && holds_at x.lease_until instant

-- Between the claim and the end of a job, the rows that it holds are those with its id.
pub claimed_holds :
    (sql : OrderBy) (locked : TransferJobRow → Bool) (c : JobClaim) (db db' : Database)
    (job : TransferJob)
    → claim sql locked c db ≡ ok (some job, db')
    → All (λ x. holds_lease job x ≡ (x.id == job.id)) db'.transfer_jobs
unfolding holds_lease take_lease
claimed_holds sql locked c db db' job e = All-of_mem _ db'.transfer_jobs λ x m.
    elim (Bool-cases (x.id == job.id)) [
      | inl hit ↦
          let held =
            claimed_rows c (held_until c.lease_until) true (λ y. ground arith) sql locked db db' job
              e x m ((eq_iff x.id job.id).0 hit) in
          ground (arith, claimed_lease sql locked c db db' job e)
      | inr miss ↦ ground arith
    ]

pub claimed_exists :
    (sql : OrderBy) (locked : TransferJobRow → Bool) (c : JobClaim) (db db' : Database)
    (job : TransferJob)
    → claim sql locked c db ≡ ok (some job, db')
    → exists_where (λ x. x.id == job.id) db'.transfer_jobs ≡ true
unfolding claimed_job take_lease
claimed_exists sql locked c db db' job e = elim (claim_cases sql locked c db) [
  | inl idle ↦ cc (idle.0)
  | inr (r, next, taken) ↦
      let rows : db'.transfer_jobs ≡ (after_claim c r db).transfer_jobs = cc in
      let id : job.id ≡ r.id = cc in
      rw (rows, id)
        (exists_where-update (λ x. x.id == r.id) (λ x. x.id == r.id) (take_lease c)
            (λ x. ground arith) db.transfer_jobs
          ∙ mem-exists_where (λ x. x.id == r.id) r db.transfer_jobs next.stored (eq_refl r.id))
]

pub unique_ids :
    (rows : List TransferJobRow)
    → transfer_jobs_constraints rows ≡ true
    → is_unique (λ x. some x.id) rows ≡ true
unfolding transfer_jobs_constraints
unique_ids rows h = ground arith

-- Right after its claim a worker can end the job: if the table satisfies its constraints, and
-- still does with the outcome written, exactly the rows with the job's id take the outcome, and
-- the call returns true.
pub finish_claimed :
    (sql : OrderBy) (locked : TransferJobRow → Bool) (c : JobClaim) (db db' : Database)
    (job : TransferJob) (finish : JobFinish)
    → claim sql locked c db ≡ ok (some job, db')
    → transfer_jobs_constraints db'.transfer_jobs ≡ true
    → transfer_jobs_constraints
        (update_where (λ x. x.id == job.id) (finished finish) db'.transfer_jobs)
      ≡ true
    → finish_job job finish db'
      ≡ ok (
        true,
        record db' {
          transfer_jobs = update_where (λ x. x.id == job.id) (finished finish) db'.transfer_jobs;
        },
      )
unfolding finish_job
finish_claimed sql locked c db db' job finish e before after =
    let held = claimed_holds sql locked c db db' job e in
    ground (
      arith,
      update_where_agree (holds_lease job) (λ x. x.id == job.id) (finished finish) db'.transfer_jobs
          held,
      count_where_agree (holds_lease job) (λ x. x.id == job.id) db'.transfer_jobs held,
      count_where_unique (λ x. some x.id) job.id db'.transfer_jobs
          (unique_ids db'.transfer_jobs before) (claimed_exists sql locked c db db' job e),
    )
