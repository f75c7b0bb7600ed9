-- ===== src/TransferStore/Claim.antt =====
-- `TransferStore.claim`: which job it hands out, and to how many workers.
use starkbank_backend_challe.Base.{
  ℕ, ◌≤◌, ◌<◌, ◌≡◌, ◌≢◌, sym, ◌∙◌, ◌⊎◌, inl, inr, Bool, true, false, not, ◌&&◌, none, some, List,
  [], ◌∷◌, Mem, All, arith, String, ◌==◌, eq_iff, Option-cases, exists_where, update_where,
}
use starkbank_backend_challe.Base.Select.{
  OrderBy, first_by_fits, first_by_least, first_by-none, All-mem,
}
use starkbank_backend_challe.Domain.Errors.{ok}
use starkbank_backend_challe.Domain.Models.{JobClaim, TransferJob}
use starkbank_backend_challe.Schema.{Database, TransferJobRow}
use starkbank_backend_challe.TransferStore.{is_due, take_lease, claimed_job, next_job, claim}
use mathlib.Core.Bool.{Bool-set}
use mathlib.Core.HLevel.{Π_prop}

abbrev pub is_free : (TransferJobRow → Bool) → ℕ → TransferJobRow → Bool
is_free locked now r = is_due now r && not (locked r)

-- The row that a claim takes: it is due, no other transaction holds it, and no such row is due
-- earlier.
pub record IsNext (locked : TransferJobRow → Bool) (now : ℕ) (rows : List TransferJobRow)
    (r : TransferJobRow) : Type 0 where
  pub stored : Mem r rows
  pub due : is_due now r ≡ true
  pub unlocked : locked r ≡ false
  pub earliest :
      (s : TransferJobRow)
      → Mem s rows
      → is_free locked now s ≡ true
      → r.next_attempt_at ≤ s.next_attempt_at

abbrev pub after_claim : JobClaim → TransferJobRow → Database → Database
after_claim c r db = record db {
  transfer_jobs = update_where (λ x. x.id == r.id) (take_lease c) db.transfer_jobs;
}

module _ (sql : OrderBy) (locked : TransferJobRow → Bool) (c : JobClaim) where
  next_job-IsNext :
      (rows : List TransferJobRow) (r : TransferJobRow)
      → next_job sql locked c.now rows ≡ some r
      → IsNext locked c.now rows r
  unfolding next_job
  next_job-IsNext rows r e =
      let fits = first_by_fits sql (λ x. x.next_attempt_at) (is_free locked c.now) rows r e in
      record {
        stored = fits.1;
        due = ground (arith, fits.0);
        unlocked = ground (arith, fits.0);
        earliest =
            λ s. first_by_least sql (λ x. x.next_attempt_at) (is_free locked c.now) rows r s e;
      }

  -- A claim never fails. It returns nothing and changes nothing exactly if no job is due and free;
  -- otherwise it leases the earliest of these, one attempt later, and returns it.
  pub claim_cases :
      (db : Database)
      → ((claim sql locked c db ≡ ok (none, db))
          × (exists_where (is_free locked c.now) db.transfer_jobs ≡ false))
        ⊎ ((r : TransferJobRow) × IsNext locked c.now db.transfer_jobs r
            × (claim sql locked c db ≡ ok (some (claimed_job c r), after_claim c r db)))
  unfolding claim
  claim_cases db = elim (Option-cases (next_job sql locked c.now db.transfer_jobs)) [
    | inl e ↦ inl (
      ground (arith, e),
      unfold next_job in
          first_by-none sql (λ x. x.next_attempt_at) (is_free locked c.now) db.transfer_jobs e,
    )
    | inr (r, e) ↦ inr (r, next_job-IsNext db.transfer_jobs r e, ground (arith, e))
  ]

-- Leasing a row moves its lease past every instant before `lease_until`.
leased_row :
    (c : JobClaim) (now : ℕ) (r : TransferJobRow)
    → now < c.lease_until
    → is_due now (take_lease c r) ≡ false
unfolding is_due take_lease
leased_row c now r h = ground arith

module _ (c : JobClaim) (q : TransferJobRow → Bool) (b : Bool)
    (leased : (x : TransferJobRow) → q (take_lease c x) ≡ b) where
  leased_rows :
      (id : String) (rows : List TransferJobRow)
      → All (λ x. x.id ≡ id → q x ≡ b) (update_where (λ x. x.id == id) (take_lease c) rows)
  unfolding take_lease
  leased_rows id [] = tt
  leased_rows id (x ∷ rows) = (ground (arith, eq_iff x.id id, leased x), leased_rows id rows)

  -- After a claim a test that holds of every leased row holds of the claimed one.
  pub claimed_rows :
      (sql : OrderBy) (locked : TransferJobRow → Bool) (db db' : Database) (job : TransferJob)
      → claim sql locked c db ≡ ok (some job, db')
      → (x : TransferJobRow) → Mem x db'.transfer_jobs
      → x.id ≡ job.id
      → q x ≡ b
  unfolding claimed_job
  claimed_rows sql locked db db' job e x m = elim (claim_cases sql locked c db) [
    | inl idle ↦ cc (idle.0)
    | inr (r, next, taken) ↦
        let rows : db'.transfer_jobs ≡ (after_claim c r db).transfer_jobs = cc in
        let id : job.id ≡ r.id = cc in
        rw id (
          All-mem (λ (y : TransferJobRow). y.id ≡ r.id → q y ≡ b) x _
            (λ y. Π_prop (λ _. Bool-set _ _)) (leased_rows r.id db.transfer_jobs) (rw rows at m))
  ]

-- When a claim has returned a job, the next claim, made before the lease of the first runs out and
-- whatever rows are locked, does not return the same job.
pub claim_exclusive :
    (sql : OrderBy) (locked locked' : TransferJobRow → Bool) (c c' : JobClaim)
    (db db' db'' : Database) (job job' : TransferJob)
    → claim sql locked c db ≡ ok (some job, db')
    → c'.now < c.lease_until
    → claim sql locked' c' db' ≡ ok (some job', db'')
    → job'.id ≢ job.id
unfolding claimed_job
claim_exclusive sql locked locked' c c' db db' db'' job job' e h e' same =
    elim (claim_cases sql locked' c' db') [
      | inl idle ↦ cc (idle.0)
      | inr (r, next, taken) ↦
          let held =
            claimed_rows c (is_due c'.now) false (λ x. leased_row c c'.now x h) sql locked db db'
              job e r next.stored in
          let id : job'.id ≡ r.id = cc in cc (held (sym id ∙ same), next.due)
    ]
