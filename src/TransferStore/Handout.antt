-- ===== src/TransferStore/Handout.antt =====
-- `TransferStore.claim` against its contract, which is written without the functions that model it.
use starkbank_backend_challe.Base.{
  ℕ, ◌≤◌, ◌+◌, ◌≡◌, ◌≢◌, refl, ◌⊎◌, inl, inr, true, false, none, some, List, [], ◌∷◌, Mem, arith,
  String, ◌==◌, eq_iff, Bool, Option, Bool-cases, update_where, RowByRow,
}
use starkbank_backend_challe.Base.Select.{OrderBy, mem-exists_where}
use starkbank_backend_challe.Domain.Errors.{ok}
use starkbank_backend_challe.Domain.Models.{JobClaim, TransferJob}
use starkbank_backend_challe.Domain.Status.{
  TransferStatus, pending, processing, unknown, succeeded, permanent_failure,
}
use starkbank_backend_challe.Schema.{Database, TransferJobRow}
use starkbank_backend_challe.TransferStore.{is_due, take_lease, claimed_job, claim}
use starkbank_backend_challe.TransferStore.Claim.{IsNext, is_free, after_claim, claim_cases}

-- A job waits for its next attempt, which is due, or the lease of an earlier claim has run out.
abbrev pub IsClaimable : ℕ → TransferJobRow → Type 0
IsClaimable now r =
    (((r.status ≡ pending) ⊎ (r.status ≡ unknown)) × (r.next_attempt_at ≤ now))
    ⊎ ((r.status ≡ processing) × ((until : ℕ) × (r.lease_until ≡ some until) × (until ≤ now)))

-- A row with the id is leased, one attempt later; any other is as it was.
pub record LeasedOnly (c : JobClaim) (id : String) (x y : TransferJobRow) : Type 0 where
  pub leased :
      x.id ≡ id
      → y ≡ record x {
        status = processing;
        attempts = x.attempts + 1;
        lease_until = some c.lease_until;
        updated_at = c.now;
      }
  pub left : x.id ≢ id → y ≡ x

-- The job is that of a row that could be claimed and that no other transaction held; among these
-- its attempt was due first. It has the row's values, with one attempt more, and says from which
-- status it was claimed.
pub record IsTaken (locked : TransferJobRow → Bool) (c : JobClaim) (rows : List TransferJobRow)
    (job : TransferJob) (rows' : List TransferJobRow) : Type 0 where
  pub row : TransferJobRow
  pub stored : Mem row rows
  pub claimable : IsClaimable c.now row
  pub unlocked : locked row ≡ false
  pub earliest :
      (other : TransferJobRow)
      → Mem other rows
      → IsClaimable c.now other
      → locked other ≡ false
      → row.next_attempt_at ≤ other.next_attempt_at
  pub handed : job ≡ record {
    id = row.id;
    event_id = row.event_id;
    invoice_id = row.invoice_id;
    amount = row.amount;
    fee = row.fee;
    net_amount = row.net_amount;
    external_id = row.external_id;
    tag = row.tag;
    status = processing;
    attempts = row.attempts + 1;
    lease_until = c.lease_until;
    claimed_from = some row.status;
  }
  pub written : RowByRow (LeasedOnly c row.id) rows rows'

-- Every row that could be claimed is held by another transaction.
pub record IsIdle (locked : TransferJobRow → Bool) (now : ℕ) (rows : List TransferJobRow)
    : Type 0 where
  pub held : (row : TransferJobRow) → Mem row rows → IsClaimable now row → locked row ≡ true

due-IsClaimable :
    (now : ℕ) (r : TransferJobRow) (status : TransferStatus) (lease : Option ℕ)
    → r.status ≡ status
    → r.lease_until ≡ lease
    → is_due now r ≡ true
    → IsClaimable now r
unfolding is_due
due-IsClaimable now r pending lease e d h = inl (inl e, ground (arith, h, e))
due-IsClaimable now r unknown lease e d h = inl (inr e, ground (arith, h, e))
due-IsClaimable now r processing none e d h = absurd (ground (arith, h, e, d))
due-IsClaimable now r processing (some until) e d h = inr (e, (until, d, ground (arith, h, e, d)))
due-IsClaimable now r succeeded lease e d h = absurd (ground (arith, h, e))
due-IsClaimable now r permanent_failure lease e d h = absurd (ground (arith, h, e))

IsClaimable-due : (now : ℕ) (r : TransferJobRow) → IsClaimable now r → is_due now r ≡ true
unfolding is_due
IsClaimable-due now r (inl (inl e, le)) = ground (arith, e, le)
IsClaimable-due now r (inl (inr e, le)) = ground (arith, e, le)
IsClaimable-due now r (inr (e, (until, d, le))) = ground (arith, e, d, le)

take_lease-LeasedOnly :
    (c : JobClaim) (id : String) (rows : List TransferJobRow)
    → RowByRow (LeasedOnly c id) rows (update_where (λ x. x.id == id) (take_lease c) rows)
unfolding take_lease
take_lease-LeasedOnly c id [] = tt
take_lease-LeasedOnly c id (x ∷ rows) = (
  elim (Bool-cases (x.id == id)) [
    | inl hit ↦
        rw hit
          (record { leased = λ e. refl; left = λ other. absurd (other ((eq_iff x.id id).0 hit)) })
    | inr miss ↦
        rw miss
          (record { leased = λ e. ground (arith, eq_iff x.id id, e, miss); left = λ other. refl })
  ],
  take_lease-LeasedOnly c id rows,
)

claimed_job-IsTaken :
    (locked : TransferJobRow → Bool) (c : JobClaim) (rows : List TransferJobRow)
    (r : TransferJobRow)
    → IsNext locked c.now rows r
    → IsTaken locked c rows (claimed_job c r) (update_where (λ x. x.id == r.id) (take_lease c) rows)
unfolding claimed_job
claimed_job-IsTaken locked c rows r next = record {
  row = r;
  stored = next.stored;
  claimable = due-IsClaimable c.now r r.status r.lease_until refl refl next.due;
  unlocked = next.unlocked;
  earliest =
      λ other m fits free. next.earliest other m (rw (IsClaimable-due c.now other fits, free) refl);
  handed = refl;
  written = take_lease-LeasedOnly c r.id rows;
}

-- A claim never fails. Either it returns no job and changes nothing, and every row that waits for a
-- due attempt, or whose lease has run out, is held by another transaction; or it returns the job of
-- such a row that no other transaction holds, the one whose attempt is due first, with the row's
-- values. The table then has this row in PROCESSING, under the lease of the claim and with one
-- attempt more, and every row with another id as it was.
pub claim_hands_out :
    (sql : OrderBy) (locked : TransferJobRow → Bool) (c : JobClaim) (db : Database)
    → ((claim sql locked c db ≡ ok (none, db)) × IsIdle locked c.now db.transfer_jobs)
      ⊎ ((job : TransferJob) × (db' : Database) × (claim sql locked c db ≡ ok (some job, db'))
          × IsTaken locked c db.transfer_jobs job db'.transfer_jobs)
claim_hands_out sql locked c db = elim (claim_cases sql locked c db) [
  | inl (e, none_free) ↦ inl (
    e,
    record {
      held = λ row m fits. elim (Bool-cases (locked row)) [
        | inl is ↦ is
        | inr free ↦
            let due = IsClaimable-due c.now row fits in
            let found =
              mem-exists_where (is_free locked c.now) row db.transfer_jobs m
                (rw (due, free) refl) in
            cc
      ];
    },
  )
  | inr (r, next, e) ↦
      inr (
        claimed_job c r,
        after_claim c r db,
        e,
        claimed_job-IsTaken locked c db.transfer_jobs r next,
      )
]
