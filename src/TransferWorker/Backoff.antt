-- ===== src/TransferWorker/Backoff.antt =====
-- The delay before the next attempt.
use native.Mathlib.Nat.{pow-suc, pow-le-pow_right}
use starkbank_backend_challe.Base.{
  ℕ, zero, suc, refl, ◌+◌, ◌*◌, ◌^◌, ◌≤◌, ◌≡◌, min, arith, ltb, if◌then◌else◌, inl, inr, Bool-cases,
}
use starkbank_backend_challe.Domain.Models.{TransferJob}
use starkbank_backend_challe.Domain.Time.{seconds}
use starkbank_backend_challe.TransferWorker.{TransferWorker, backoff, delay_of}

two_pow_bounds : (k : ℕ) → k ≤ 8 → (1 ≤ 2 ^ k) × (2 ^ k ≤ 256)
two_pow_bounds k h = (
  pow-le-pow_right {n = 2} (omega arith) {i = 0} {j = k} (omega arith),
  pow-le-pow_right {n = 2} (omega arith) {i = k} {j = 8} h,
)

delay_bounds :
    (base attempts : ℕ)
    → (base * 500000 ≤ delay_of base attempts) × (delay_of base attempts ≤ seconds (base * 256))
unfolding delay_of
delay_bounds base zero = (omega arith, omega arith)
delay_bounds base (suc n) =
    let bounds = two_pow_bounds (min n 8) (omega arith) in grind (arith, bounds)

delay_doubles :
    (base attempts : ℕ)
    → delay_of base (suc attempts)
      ≡ (if ltb attempts 9 then 2 * delay_of base attempts else delay_of base attempts)
unfolding delay_of
delay_doubles base zero = omega arith
delay_doubles base (suc n) = elim (Bool-cases (ltb (suc n) 9)) [
  | inl below ↦
      let next_power : min (suc n) 8 ≡ suc (min n 8) = ground arith in
      rw (below, next_power, pow-suc 2 (min n 8)) (omega arith)
  | inr above ↦
      let same_power : min (suc n) 8 ≡ min n 8 = ground arith in rw (above, same_power) refl
]

-- Each further attempt doubles the delay, until the ninth; from then on it stays. It is never less
-- than half the base, nor more than 256 times the base.
pub backoff_doubles :
    (worker : TransferWorker) (job next : TransferJob)
    → next.attempts ≡ job.attempts + 1
    → (backoff worker next
        ≡ (if ltb job.attempts 9 then 2 * backoff worker job else backoff worker job))
      × (worker.retry_base_seconds * 500000 ≤ backoff worker job)
      × (backoff worker job ≤ seconds (worker.retry_base_seconds * 256))
unfolding backoff
backoff_doubles worker job next e =
    let one_more : next.attempts ≡ suc job.attempts = omega arith in
    let bounds = delay_bounds worker.retry_base_seconds job.attempts in
    (rw one_more (delay_doubles worker.retry_base_seconds job.attempts), bounds.0, bounds.1)

-- A job that has been claimed once waits for the base.
backoff_first :
    (worker : TransferWorker) (job : TransferJob)
    → job.attempts ≡ 1
    → backoff worker job ≡ seconds worker.retry_base_seconds
unfolding backoff delay_of
backoff_first worker job e = rw e (omega arith)
