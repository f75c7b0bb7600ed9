-- ===== src/TransferWorker.antt =====
-- application/transfers.py: the worker that turns queued jobs into transfers. Log lines are left
-- out.
pub mod Backoff
pub mod Exhaustion
pub mod Reports
pub mod Commands
pub mod Ended
pub mod Returns
use starkbank_backend_challe.Base.{
  ℕ, zero, suc, ◌+◌, ◌*◌, ◌^◌, min, Bool, true, false, Option, none, some, String, leb,
  if◌then◌else◌,
}
use starkbank_backend_challe.Base.Select.{OrderBy}
use starkbank_backend_challe.Domain.Errors.{
  ProviderError, Error, Result, ok, err, provider, is_timeout, is_transient, is_permanent,
  class_name,
}
use starkbank_backend_challe.Domain.Models.{
  JobClaim, TransferJob, TransferCommand, ProviderTransfer,
}
use starkbank_backend_challe.Domain.Status.{TransferStatus, unknown}
use starkbank_backend_challe.Domain.Time.{seconds}
use starkbank_backend_challe.Domain.Transfer.{build_transfer_command}
use starkbank_backend_challe.Schema.{Database, TransferJobRow}
use starkbank_backend_challe.Service.{
  Action, pure, raise, transact, attempt, ◌>>=◌, ◌>>◌, Clock, read_clock, Call, call,
}
use starkbank_backend_challe.TransferStore.{
  claim, mark_succeeded, mark_retry, mark_unknown, mark_failed,
}

pub data WorkerResult : Type 0 where
  idle succeeded retry_scheduled reconciliation_scheduled : WorkerResult
  permanent_failure live_disabled : WorkerResult

-- The worker loop sleeps after these.
unfoldable pub should_poll : WorkerResult → Bool
should_poll idle = true
should_poll live_disabled = true
should_poll _ = false

pub record TransferWorker : Type 0 where
  pub lease_seconds : ℕ
  pub retry_base_seconds : ℕ
  pub transfer_max_attempts : ℕ
  pub live_operations_enabled : Bool

-- What the worker runs in: the clock and the provider read and change the world, `meanwhile` is
-- what other processes commit while the provider answers, and `locked` the rows that their open
-- transactions hold.
pub record WorkerEnv (W : Type 0) : Type 1 where
  pub sql : OrderBy
  pub clock : Clock W
  pub ensure_transfer : TransferCommand → Call W ProviderTransfer
  pub find_transfer : TransferCommand → Call W (Option ProviderTransfer)
  pub meanwhile : W → Database → Database
  pub locked : W → TransferJobRow → Bool

-- `timedelta(seconds=base * 2 ** min(attempts - 1, 8))`: at no attempts that is
-- half the base, 500000 microseconds for each second.
unfoldable pub delay_of : ℕ → ℕ → ℕ
delay_of base zero = base * 500000
delay_of base (suc n) = seconds (base * 2 ^ min n 8)

unfoldable pub backoff : TransferWorker → TransferJob → ℕ
backoff worker job = delay_of worker.retry_base_seconds job.attempts

-- `job.attempts >= self.transfer_max_attempts`
unfoldable pub is_exhausted : TransferWorker → TransferJob → Bool
is_exhausted worker job = leb worker.transfer_max_attempts job.attempts

-- `job.claimed_from is TransferStatus.UNKNOWN`
unfoldable pub was_unknown : Option TransferStatus → Bool
was_unknown (some unknown) = true
was_unknown _ = false

module _ {W : Type 0} (worker : TransferWorker) (env : WorkerEnv W) where
  pub fetch : TransferCommand → Action W (Result (Option ProviderTransfer))
  fetch command = attempt (call env.meanwhile (env.find_transfer command))

  pub finish_succeeded : TransferJob → ProviderTransfer → ℕ → Action W WorkerResult
  finish_succeeded job transfer now = do transact (mark_succeeded job transfer now); pure succeeded

  pub finish_failed : TransferJob → String → ℕ → Action W WorkerResult
  finish_failed job code now = do transact (mark_failed job code now); pure permanent_failure

  pub finish_retry : TransferJob → String → ℕ → Action W WorkerResult
  finish_retry job code now = do
    transact (mark_retry job code now (backoff worker job))
    pure retry_scheduled

  pub finish_unknown : TransferJob → String → ℕ → Action W WorkerResult
  finish_unknown job code now = do
    transact (mark_unknown job code now (backoff worker job))
    pure reconciliation_scheduled

  -- A transient error of the lookup counts as not found; any other leaves the method.
  pub settle_lookup : TransferJob → ℕ → Result (Option ProviderTransfer) → Action W WorkerResult
  settle_lookup job now (ok (some transfer)) = finish_succeeded job transfer now
  settle_lookup job now (ok none) = finish_failed job "retry_exhausted" now
  settle_lookup job now (err (provider e)) =
      if is_transient e then finish_failed job "retry_exhausted" now else raise (provider e)
  settle_lookup job now (err e) = raise e

  pub finalize_after_lookup : TransferJob → TransferCommand → ℕ → Action W WorkerResult
  finalize_after_lookup job command now = do found ← fetch command; settle_lookup job now found

  pub handle_timeout : TransferJob → TransferCommand → ℕ → ProviderError → Action W WorkerResult
  handle_timeout job command now error =
      if is_exhausted worker job
      then finalize_after_lookup job command now
      else finish_unknown job (class_name error) now

  pub handle_transient : TransferJob → TransferCommand → ℕ → ProviderError → Action W WorkerResult
  handle_transient job command now error =
      if is_exhausted worker job
      then finalize_after_lookup job command now
      else finish_retry job (class_name error) now

  pub handle_permanent : TransferJob → ℕ → ProviderError → Action W WorkerResult
  handle_permanent job now error = finish_failed job (class_name error) now

  pub settle_reconciliation :
      TransferJob → ℕ → Result (Option ProviderTransfer) → Action W WorkerResult
  settle_reconciliation job now (ok (some transfer)) = finish_succeeded job transfer now
  settle_reconciliation job now (ok none) =
      if is_exhausted worker job
      then finish_failed job "retry_exhausted" now
      else finish_retry job "reconciliation_not_found" now
  settle_reconciliation job now (err (provider e)) =
      if is_transient e
      then (if is_exhausted worker job
          then finish_failed job "retry_exhausted" now
          else finish_unknown job (class_name e) now)
      else if is_permanent e
      then finish_failed job (class_name e) now
      else raise (provider e)
  settle_reconciliation job now (err e) = raise e

  pub reconcile_unknown : TransferJob → TransferCommand → ℕ → Action W WorkerResult
  reconcile_unknown job command now = do found ← fetch command; settle_reconciliation job now found

  pub settle_transfer :
      TransferJob → TransferCommand → ℕ → Result ProviderTransfer → Action W WorkerResult
  settle_transfer job command now (ok transfer) = finish_succeeded job transfer now
  settle_transfer job command now (err (provider e)) =
      if is_timeout e
      then handle_timeout job command now e
      else if is_transient e
      then handle_transient job command now e
      else if is_permanent e
      then handle_permanent job now e
      else raise (provider e)
  settle_transfer job command now (err e) = raise e

  pub ensure : TransferJob → TransferCommand → ℕ → Action W WorkerResult
  ensure job command now = do
    outcome ← attempt (call env.meanwhile (env.ensure_transfer command))
    settle_transfer job command now outcome

  pub process_claimed : TransferJob → ℕ → Action W WorkerResult
  process_claimed job now =
      let command = build_transfer_command job.invoice_id job.net_amount in
      if was_unknown job.claimed_from
      then reconcile_unknown job command now
      else ensure job command now

  pub claim_job : Action W (Option TransferJob)
  claim_job = do
    now ← read_clock env.clock
    λ db w.
        transact
          (claim env.sql (env.locked w)
            (record { now = now; lease_until = now + seconds worker.lease_seconds }))
          db w

  pub process_found : Option TransferJob → Action W WorkerResult
  process_found none = pure idle
  process_found (some job) = do now ← read_clock env.clock; process_claimed job now

  pub process_one : Action W WorkerResult
  process_one =
      if worker.live_operations_enabled
      then (do job ← claim_job; process_found job)
      else pure live_disabled
