-- ===== src/TransferWorker/Returns.antt =====
-- The worker returns: which answers of the provider it takes care of.
use starkbank_backend_challe.Base.{
  ℕ, ◌+◌, ◌≡◌, refl, ap, inl, inr, true, false, not, ◌&&◌, ◌==◌, holds, exists_where,
  update_where_agree, ◌||◌, Option, none, some, String, arith, ◌⊎◌, update_where,
}
use starkbank_backend_challe.Domain.Errors.{
  Result, ok, err, provider, is_transient, is_permanent, class_name, invalid_amount,
  invalid_batch_count,
}
use starkbank_backend_challe.Domain.Models.{TransferJob, ProviderTransfer}
use starkbank_backend_challe.Domain.Status.{TransferStatus}
use starkbank_backend_challe.Schema.{Database, transfer_jobs_constraints}
use starkbank_backend_challe.Service.{pure, transact, ◌>>◌}
use starkbank_backend_challe.TransferStore.{
  JobFinish, holds_lease, finished, finish_job, mark_succeeded, mark_retry, mark_unknown,
  mark_failed, succeeded_finish, error_finish,
}
use starkbank_backend_challe.TransferStore.Constraints.{
  constraints-update_null, constraints-update_one,
}
use starkbank_backend_challe.TransferWorker.{
  WorkerResult, succeeded, retry_scheduled, reconciliation_scheduled, permanent_failure,
  TransferWorker, WorkerEnv, backoff, is_exhausted, finish_succeeded, finish_failed, finish_retry,
  finish_unknown, settle_lookup, finalize_after_lookup, handle_timeout, handle_transient,
  handle_permanent, settle_reconciliation, reconcile_unknown, settle_transfer, ensure,
  process_claimed, fetch,
}
use starkbank_backend_challe.TransferWorker.Commands.{command_of}
use starkbank_backend_challe.TransferWorker.Reports.{IsHeld, stored_status}
use starkbank_backend_challe.TransferWorker.Ended.{IsEnded, process_claimed-IsEnded}

abbrev pub Returns : {W : Type 0} → Result WorkerResult × Database × W → Type 0
Returns (ok _, _, _) = Unit
Returns (err _, _, _) = ⊥

-- Answers that the handlers of `_process_claimed` name.
abbrev pub IsHandled : {A : Type 0} → Result A → Type 0
IsHandled (ok _) = Unit
IsHandled (err (provider e)) = (is_transient e || is_permanent e) ≡ true
IsHandled (err _) = ⊥

-- Answers of a lookup that every handler names: `_finalize_after_lookup` names no permanent error.
abbrev pub IsFoundOrTransient : {A : Type 0} → Result A → Type 0
IsFoundOrTransient (ok _) = Unit
IsFoundOrTransient (err (provider e)) = is_transient e ≡ true
IsFoundOrTransient (err _) = ⊥

-- No other job has the transfer.
abbrev pub HasRoom : TransferJob → Database → ProviderTransfer → Type 0
HasRoom job db transfer =
    exists_where (λ r. not (r.id == job.id) && holds r.provider_transfer_id transfer.id)
      db.transfer_jobs
    ≡ false

-- An environment in which nobody else writes, every answer for the job's command is one that the
-- worker expects, and a transfer that the provider reports for it is not that of another job.
pub record IsOrderly {W : Type 0} (env : WorkerEnv W) (job : TransferJob) (db : Database)
    : Type 0 where
  pub quiet : (w : W) (db : Database) → env.meanwhile w db ≡ db
  pub ensured : (w : W) → IsHandled (env.ensure_transfer (command_of job) w).0
  pub found : (w : W) → IsFoundOrTransient (env.find_transfer (command_of job) w).0
  pub ensured_room :
      (w : W) (transfer : ProviderTransfer)
      → (env.ensure_transfer (command_of job) w).0 ≡ ok transfer
      → HasRoom job db transfer
  pub found_room :
      (w : W) (transfer : ProviderTransfer)
      → (env.find_transfer (command_of job) w).0 ≡ ok (some transfer)
      → HasRoom job db transfer

module _ {W : Type 0} (worker : TransferWorker) (env : WorkerEnv W) (job : TransferJob)
    (db : Database) (orderly : IsOrderly env job db) (held : IsHeld job db)
    (consistent : transfer_jobs_constraints db.transfer_jobs ≡ true) where
  ending-Returns :
      (finish : JobFinish) (r : WorkerResult) (w : W)
      → transfer_jobs_constraints
          (update_where (holds_lease job) (finished finish) db.transfer_jobs)
        ≡ true
      → Returns ((transact (finish_job job finish) >> pure r) db w)
  unfolding finish_job
  ending-Returns finish r w h = ground arith

  null-Returns :
      (status : TransferStatus) (code : String) (now next : ℕ) (r : WorkerResult) (w : W)
      → Returns ((transact (finish_job job (error_finish status code now next)) >> pure r) db w)
  unfolding finished error_finish
  null-Returns status code now next r w = ending-Returns (error_finish status code now next) r w (
      constraints-update_null (holds_lease job) (finished (error_finish status code now next))
        (λ x. ground arith) db.transfer_jobs (λ x. refl) consistent)

  finish_succeeded-Returns :
      (transfer : ProviderTransfer) (now : ℕ) (w : W)
      → HasRoom job db transfer
      → Returns (finish_succeeded worker env job transfer now db w)
  unfolding finish_succeeded mark_succeeded finished succeeded_finish
  finish_succeeded-Returns transfer now w room =
      ending-Returns (succeeded_finish transfer now) succeeded w (
        rw
          (update_where_agree (holds_lease job) (λ x. x.id == job.id)
            (finished (succeeded_finish transfer now)) db.transfer_jobs held.held)
          (constraints-update_one job.id transfer.id (finished (succeeded_finish transfer now))
            (λ x. ground arith) (λ x. refl) db.transfer_jobs room consistent))

  finish_failed-Returns :
      (code : String) (now : ℕ) (w : W) → Returns (finish_failed worker env job code now db w)
  unfolding finish_failed mark_failed
  finish_failed-Returns code now w =
      null-Returns TransferStatus.permanent_failure code now now permanent_failure w

  finish_retry-Returns :
      (code : String) (now : ℕ) (w : W) → Returns (finish_retry worker env job code now db w)
  unfolding finish_retry mark_retry
  finish_retry-Returns code now w =
      null-Returns TransferStatus.pending code now (now + backoff worker job) retry_scheduled w

  finish_unknown-Returns :
      (code : String) (now : ℕ) (w : W) → Returns (finish_unknown worker env job code now db w)
  unfolding finish_unknown mark_unknown
  finish_unknown-Returns code now w =
      null-Returns TransferStatus.unknown code now (now + backoff worker job)
        reconciliation_scheduled w

  settle_lookup-Returns :
      (now : ℕ) (found : Result (Option ProviderTransfer)) (w : W)
      → IsFoundOrTransient found
      → ((transfer : ProviderTransfer) → found ≡ ok (some transfer) → HasRoom job db transfer)
      → Returns (settle_lookup worker env job now found db w)
  unfolding settle_lookup
  settle_lookup-Returns now (ok (some transfer)) w h room =
      finish_succeeded-Returns transfer now w (room transfer refl)
  settle_lookup-Returns now (ok none) w h room = finish_failed-Returns "retry_exhausted" now w
  settle_lookup-Returns now (err (provider e)) w h room =
      rw h (finish_failed-Returns "retry_exhausted" now w)
  settle_lookup-Returns now (err (invalid_amount _ _)) w h room = absurd h
  settle_lookup-Returns now (err (invalid_batch_count _)) w h room = absurd h
  settle_lookup-Returns now (err _) w h room = absurd h

  settle_reconciliation-Returns :
      (now : ℕ) (found : Result (Option ProviderTransfer)) (w : W)
      → IsFoundOrTransient found
      → ((transfer : ProviderTransfer) → found ≡ ok (some transfer) → HasRoom job db transfer)
      → Returns (settle_reconciliation worker env job now found db w)
  unfolding settle_reconciliation
  settle_reconciliation-Returns now (ok (some transfer)) w h room =
      finish_succeeded-Returns transfer now w (room transfer refl)
  settle_reconciliation-Returns now (ok none) w h room = ground (
    arith,
    finish_failed-Returns "retry_exhausted" now w,
    finish_retry-Returns "reconciliation_not_found" now w,
  )
  settle_reconciliation-Returns now (err (provider e)) w h room = rw h (
      ground (
        arith,
        finish_failed-Returns "retry_exhausted" now w,
        finish_unknown-Returns (class_name e) now w,
      ))
  settle_reconciliation-Returns now (err (invalid_amount _ _)) w h room = absurd h
  settle_reconciliation-Returns now (err _) w h room = absurd h

  finalize-Returns :
      (now : ℕ) (w : W) → Returns (finalize_after_lookup worker env job (command_of job) now db w)
  unfolding finalize_after_lookup fetch
  finalize-Returns now w =
      let (found, w') = env.find_transfer (command_of job) w in
      rw (orderly.quiet w' db)
        (settle_lookup-Returns now found w' (orderly.found w) (orderly.found_room w))

  reconcile-Returns :
      (now : ℕ) (w : W) → Returns (reconcile_unknown worker env job (command_of job) now db w)
  unfolding reconcile_unknown fetch
  reconcile-Returns now w =
      let (found, w') = env.find_transfer (command_of job) w in
      rw (orderly.quiet w' db)
        (settle_reconciliation-Returns now found w' (orderly.found w) (orderly.found_room w))

  settle_transfer-Returns :
      (now : ℕ) (outcome : Result ProviderTransfer) (w : W)
      → IsHandled outcome
      → ((transfer : ProviderTransfer) → outcome ≡ ok transfer → HasRoom job db transfer)
      → Returns (settle_transfer worker env job (command_of job) now outcome db w)
  unfolding settle_transfer handle_timeout handle_transient handle_permanent
  settle_transfer-Returns now (ok transfer) w h room =
      finish_succeeded-Returns transfer now w (room transfer refl)
  settle_transfer-Returns now (err (provider e)) w h room = ground (
    arith,
    finalize-Returns now w,
    finish_unknown-Returns (class_name e) now w,
    finish_retry-Returns (class_name e) now w,
    finish_failed-Returns (class_name e) now w,
  )
  settle_transfer-Returns now (err (invalid_amount _ _)) w h room = absurd h
  settle_transfer-Returns now (err _) w h room = absurd h

  ensure-Returns : (now : ℕ) (w : W) → Returns (ensure worker env job (command_of job) now db w)
  unfolding ensure
  ensure-Returns now w =
      let (outcome, w') = env.ensure_transfer (command_of job) w in
      rw (orderly.quiet w' db)
        (settle_transfer-Returns now outcome w' (orderly.ensured w) (orderly.ensured_room w))

  process_claimed-Returns : (now : ℕ) (w : W) → Returns (process_claimed worker env job now db w)
  unfolding process_claimed
  process_claimed-Returns now w = ground (arith, reconcile-Returns now w, ensure-Returns now w)

  -- A claimed job that has used up its attempts ends in one call. If the job is held under its
  -- lease in a table that satisfies its constraints, nobody else writes meanwhile, the creation for
  -- the job's command answers or raises a transient or permanent error, each lookup answers or
  -- raises a transient one, and no transfer that they report is that of another job, then the call
  -- returns a success and the table has the job as SUCCEEDED, or it returns a permanent failure and
  -- the table has it as PERMANENT_FAILURE.
  pub exhausted_ends :
      (now : ℕ) (w : W)
      → is_exhausted worker job ≡ true
      → (((process_claimed worker env job now db w).0 ≡ ok succeeded)
          × (stored_status job.id (process_claimed worker env job now db w).1
              ≡ some TransferStatus.succeeded))
        ⊎ (((process_claimed worker env job now db w).0 ≡ ok permanent_failure)
            × (stored_status job.id (process_claimed worker env job now db w).1
                ≡ some TransferStatus.permanent_failure))
  exhausted_ends now w out =
      ending _ (process_claimed-Returns now w)
        (process_claimed-IsEnded worker env orderly.quiet job out now db w held)
    where
      ending :
          (end : Result WorkerResult × Database × W)
          → Returns end
          → IsEnded job.id end
          → ((end.0 ≡ ok succeeded) × (stored_status job.id end.1 ≡ some TransferStatus.succeeded))
            ⊎ ((end.0 ≡ ok permanent_failure)
                × (stored_status job.id end.1 ≡ some TransferStatus.permanent_failure))
      ending (ok r, _, _) h (inl (e, stored)) = inl (ap ok e, stored)
      ending (ok r, _, _) h (inr (e, stored)) = inr (ap ok e, stored)
      ending (err e, _, _) h k = absurd h
