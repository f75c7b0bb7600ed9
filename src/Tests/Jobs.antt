-- ===== src/Tests/Jobs.antt =====
-- The queue of transfer jobs.
use starkbank_backend_challe.Base.{
  ◌≡◌, ◌≢◌, refl, ◌⊎◌, ◌↔◌, true, false, none, some, List, [], ◌∷◌, arith, ◌==◌, update_where,
  RowByRow,
}
use starkbank_backend_challe.Base.Int.{pos, ◌+ℤ◌, ◌≤ℤ◌, ◌<ℤ◌}
use starkbank_backend_challe.Base.Insertion.{insertion}
use starkbank_backend_challe.Domain.Errors.{ok}
use starkbank_backend_challe.Domain.Models.{JobClaim, TransferJob}
use starkbank_backend_challe.Domain.Money.{calculate_net_amount, calculate_net_amount_iff}
use starkbank_backend_challe.Domain.Status.{TransferStatus}
use starkbank_backend_challe.Schema.{Database, TransferJobRow, transfer_jobs_constraints}
use starkbank_backend_challe.TransferStore.{
  claim, claimed_job, is_due, take_lease, next_job, finished, finish_job, error_finish,
  succeeded_finish,
}
use starkbank_backend_challe.TransferStore.Claim.{after_claim, claim_exclusive}
use starkbank_backend_challe.TransferStore.Handout.{IsIdle, IsTaken, claim_hands_out}
use starkbank_backend_challe.TransferStore.Fencing.{finish_stale, finish_claimed}
use starkbank_backend_challe.TransferStore.Lifecycle.{
  StoreCall, claims, succeeds, retries, JobMoves, JobKeeps, hands_out, handed_out, step, run,
  step-Moves, run-JobKeeps,
}
use starkbank_backend_challe.Tests.Data.{
  waiting_row, done_row, store, no_lock, first_claim, second_claim, sent,
}

abbrev pub first_job : TransferJob
first_job = claimed_job first_claim waiting_row

abbrev pub after_first : Database
after_first = after_claim first_claim waiting_row store

-- The older claim's lease has run out, and the job is claimed again.
abbrev second_job : TransferJob
second_job = claimed_job second_claim (take_lease first_claim waiting_row)

abbrev after_second : Database
after_second = after_claim second_claim (take_lease first_claim waiting_row) after_first

pub first_taken : claim insertion no_lock first_claim store ≡ ok (some first_job, after_first)
unfolding claim next_job is_due
first_taken = refl

second_taken : claim insertion no_lock second_claim after_first ≡ ok (some second_job, after_second)
unfolding claim next_job is_due take_lease claimed_job
second_taken = refl

pub store_consistent : transfer_jobs_constraints store.transfer_jobs ≡ true
unfolding transfer_jobs_constraints
store_consistent = refl

calculate_net_amount_iff_example :
    (calculate_net_amount (pos 300) (pos 20) ≡ ok (pos 280))
    ↔ ((pos 0 <ℤ pos 300) × (pos 0 ≤ℤ pos 20) × (pos 0 <ℤ pos 280) × (pos 280 +ℤ pos 20 ≡ pos 300))
calculate_net_amount_iff_example = calculate_net_amount_iff (pos 300) (pos 20) (pos 280)

claim_hands_out_example :
    ((claim insertion no_lock first_claim store ≡ ok (none, store))
      × IsIdle no_lock 20 store.transfer_jobs)
    ⊎ ((job : TransferJob) × (db' : Database) × (claim insertion no_lock first_claim store
          ≡ ok (some job, db'))
        × IsTaken no_lock first_claim store.transfer_jobs job db'.transfer_jobs)
claim_hands_out_example = claim_hands_out insertion no_lock first_claim store

finish_stale_example :
    finish_job first_job (error_finish TransferStatus.pending "late" 70 80) after_second
    ≡ ok (false, after_second)
unfolding transfer_jobs_constraints take_lease claimed_job
finish_stale_example =
    finish_stale insertion no_lock second_claim after_first after_second first_job second_job
      (error_finish TransferStatus.pending "late" 70 80) second_taken refl (omega arith) refl

finish_claimed_example :
    finish_job first_job (succeeded_finish sent 30) after_first
    ≡ ok (
      true,
      record after_first {
        transfer_jobs =
            update_where
              (λ x. x.id == first_job.id)
              (finished (succeeded_finish sent 30))
              after_first.transfer_jobs;
      },
    )
unfolding transfer_jobs_constraints take_lease claimed_job finished succeeded_finish
finish_claimed_example =
    finish_claimed insertion no_lock first_claim store after_first first_job
      (succeeded_finish sent 30) first_taken refl refl

step-Moves_example :
    RowByRow
      (JobMoves (hands_out insertion (claims no_lock first_claim) store))
      store.transfer_jobs
      (step insertion (claims no_lock first_claim) store).transfer_jobs
step-Moves_example = step-Moves insertion (claims no_lock first_claim) store store_consistent

abbrev calls : List StoreCall
calls =
    claims no_lock first_claim
    ∷ retries first_job "ProviderTransientError" 25 30
    ∷ claims no_lock second_claim
    ∷ succeeds second_job sent 61
    ∷ []

run-JobKeeps_example :
    RowByRow
      (JobKeeps (handed_out insertion calls store))
      store.transfer_jobs
      (run insertion calls store).transfer_jobs
    × (transfer_jobs_constraints (run insertion calls store).transfer_jobs ≡ true)
run-JobKeeps_example = run-JobKeeps insertion calls store store_consistent

abbrev later_row : TransferJobRow
later_row = record done_row { status = TransferStatus.pending; next_attempt_at = 15 }

abbrev two_waiting : Database
two_waiting = record store { transfer_jobs = waiting_row ∷ later_row ∷ [] }

abbrev other_claim : JobClaim
other_claim = record { now = 30; lease_until = 60 }

abbrev other_job : TransferJob
other_job = claimed_job other_claim (later_row)

claim_exclusive_example : other_job.id ≢ first_job.id
unfolding claim next_job is_due take_lease claimed_job
claim_exclusive_example =
    let one = after_claim first_claim waiting_row two_waiting in
    claim_exclusive insertion no_lock no_lock first_claim other_claim two_waiting one
      (after_claim other_claim (later_row) one) first_job other_job refl (omega arith) refl
