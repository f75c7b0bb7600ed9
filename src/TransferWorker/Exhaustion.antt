-- ===== src/TransferWorker/Exhaustion.antt =====
-- A job that has used up its attempts.
use starkbank_backend_challe.Base.{ℕ, ◌≡◌, true, Option, none, some, String, arith, ◌⊎◌}
use starkbank_backend_challe.Domain.Errors.{Result, ok, err, provider, class_name}
use starkbank_backend_challe.Domain.Models.{TransferJob, TransferCommand, ProviderTransfer}
use starkbank_backend_challe.Domain.Transfer.{build_transfer_command}
use starkbank_backend_challe.Schema.{Database}
use starkbank_backend_challe.TransferWorker.{
  WorkerResult, succeeded, permanent_failure, TransferWorker, WorkerEnv, is_exhausted,
  finish_succeeded, finish_failed, settle_lookup, finalize_after_lookup, handle_timeout,
  handle_transient, handle_permanent, settle_reconciliation, reconcile_unknown, settle_transfer,
  ensure, process_claimed, fetch,
}

-- The result, if there is one, ends the job.
abbrev pub Ends : {W : Type 0} → Result WorkerResult × Database × W → Type 0
Ends (ok r, _, _) = (r ≡ succeeded) ⊎ (r ≡ permanent_failure)
Ends (err _, _, _) = Unit

module _ {W : Type 0} (worker : TransferWorker) (env : WorkerEnv W) (job : TransferJob) where
  finish_succeeded-Ends :
      (transfer : ProviderTransfer) (now : ℕ) (db : Database) (w : W)
      → Ends (finish_succeeded worker env job transfer now db w)
  unfolding finish_succeeded
  finish_succeeded-Ends transfer now db w = ground arith

  finish_failed-Ends :
      (code : String) (now : ℕ) (db : Database) (w : W)
      → Ends (finish_failed worker env job code now db w)
  unfolding finish_failed
  finish_failed-Ends code now db w = ground arith

  settle_lookup-Ends :
      (now : ℕ) (found : Result (Option ProviderTransfer)) (db : Database) (w : W)
      → Ends (settle_lookup worker env job now found db w)
  unfolding settle_lookup
  settle_lookup-Ends now (ok (some transfer)) db w = finish_succeeded-Ends transfer now db w
  settle_lookup-Ends now (ok none) db w = finish_failed-Ends "retry_exhausted" now db w
  settle_lookup-Ends now (err (provider e)) db w =
      ground (arith, finish_failed-Ends "retry_exhausted" now db w)
  settle_lookup-Ends now (err _) db w = tt

  module _ (out : is_exhausted worker job ≡ true) where
    settle_reconciliation-Ends :
        (now : ℕ) (found : Result (Option ProviderTransfer)) (db : Database) (w : W)
        → Ends (settle_reconciliation worker env job now found db w)
    unfolding settle_reconciliation
    settle_reconciliation-Ends now (ok (some transfer)) db w =
        finish_succeeded-Ends transfer now db w
    settle_reconciliation-Ends now (ok none) db w =
        rw out (finish_failed-Ends "retry_exhausted" now db w)
    settle_reconciliation-Ends now (err (provider e)) db w = rw out (
        ground (
          arith,
          finish_failed-Ends "retry_exhausted" now db w,
          finish_failed-Ends (class_name e) now db w,
        ))
    settle_reconciliation-Ends now (err _) db w = tt

    settle_transfer-Ends :
        (command : TransferCommand) (now : ℕ) (outcome : Result ProviderTransfer) (db : Database)
        (w : W)
        → Ends (settle_transfer worker env job command now outcome db w)
    unfolding settle_transfer handle_timeout handle_transient handle_permanent finalize_after_lookup
        fetch
    settle_transfer-Ends command now (ok transfer) db w = finish_succeeded-Ends transfer now db w
    settle_transfer-Ends command now (err (provider e)) db w =
        let (found, w') = env.find_transfer command w in
        rw out (
          ground (
            arith,
            settle_lookup-Ends now found (env.meanwhile w' db) w',
            finish_failed-Ends (class_name e) now db w,
          ))
    settle_transfer-Ends command now (err _) db w = tt

    -- What the worker returns for a job that has used up its attempts, if it does not raise, is a
    -- success or a permanent failure.
    pub process_claimed-Ends :
        (now : ℕ) (db : Database) (w : W) → Ends (process_claimed worker env job now db w)
    unfolding process_claimed reconcile_unknown ensure fetch
    process_claimed-Ends now db w =
        let command = build_transfer_command job.invoice_id job.net_amount in
        let (found, w₁) = env.find_transfer command w in
        let (outcome, w₂) = env.ensure_transfer command w in
        ground (
          arith,
          settle_reconciliation-Ends now found (env.meanwhile w₁ db) w₁,
          settle_transfer-Ends command now outcome (env.meanwhile w₂ db) w₂,
        )
