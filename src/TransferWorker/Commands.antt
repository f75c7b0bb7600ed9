-- ===== src/TransferWorker/Commands.antt =====
-- What the worker asks of the provider.
use starkbank_backend_challe.Base.{
  ℕ, ◌≡◌, ◌⊎◌, refl, ap, ◌∙◌, subst, sym, true, false, Option, some, none, arith,
}
use starkbank_backend_challe.Domain.Errors.{
  ProviderError, Result, ok, err, provider, is_transient, is_permanent,
}
use starkbank_backend_challe.Domain.Models.{TransferJob, TransferCommand, ProviderTransfer}
use starkbank_backend_challe.Domain.Status.{TransferStatus}
use starkbank_backend_challe.Domain.Transfer.{build_transfer_command}
use starkbank_backend_challe.Schema.{Database}
use starkbank_backend_challe.Service.{Call}
use starkbank_backend_challe.TransferWorker.{
  WorkerResult, succeeded, permanent_failure, retry_scheduled, reconciliation_scheduled,
  TransferWorker, WorkerEnv, is_exhausted, settle_lookup, finalize_after_lookup, handle_timeout,
  handle_transient, handle_permanent, finish_succeeded, finish_failed, finish_retry, finish_unknown,
  settle_transfer, ensure, reconcile_unknown, was_unknown, process_claimed, fetch,
  settle_reconciliation,
}

abbrev pub command_of : TransferJob → TransferCommand
command_of job = build_transfer_command job.invoice_id job.net_amount

-- What the worker returns follows from what the lookup found: a transfer is a success, none ends the
-- job or puts it back, and an error ends it or leaves it to the next lookup.
abbrev pub Follows :
    {W : Type 0} → Result (Option ProviderTransfer) → Result WorkerResult × Database × W → Type 0
Follows (ok (some transfer)) (ok r, _, _) = r ≡ succeeded
Follows (ok none) (ok r, _, _) = (r ≡ permanent_failure) ⊎ (r ≡ retry_scheduled)
Follows (err e) (ok r, _, _) = (r ≡ permanent_failure) ⊎ (r ≡ reconciliation_scheduled)
Follows found (err _, _, _) = Unit

module _ {W : Type 0} (worker : TransferWorker) (env : WorkerEnv W) (job : TransferJob) where
  module _ (ensure' : TransferCommand → Call W ProviderTransfer)
      (find' : TransferCommand → Call W (Option ProviderTransfer)) where
    abbrev env' : WorkerEnv W
    env' = record env { ensure_transfer = ensure'; find_transfer = find' }

    settle_reconciliation_agree :
        (now : ℕ) (found : Result (Option ProviderTransfer)) (db : Database) (w : W)
        → settle_reconciliation worker env' job now found db w
          ≡ settle_reconciliation worker env job now found db w
    unfolding settle_reconciliation finish_succeeded finish_failed finish_retry finish_unknown
    settle_reconciliation_agree now (ok (some transfer)) db w = refl
    settle_reconciliation_agree now (ok none) db w = refl
    settle_reconciliation_agree now (err (provider e)) db w = refl
    settle_reconciliation_agree now (err _) db w = refl

    settle_lookup_agree :
        (now : ℕ) (found : Result (Option ProviderTransfer)) (db : Database) (w : W)
        → settle_lookup worker env' job now found db w ≡ settle_lookup worker env job now found db w
    unfolding settle_lookup finish_succeeded finish_failed
    settle_lookup_agree now (ok (some transfer)) db w = refl
    settle_lookup_agree now (ok none) db w = refl
    settle_lookup_agree now (err (provider e)) db w = refl
    settle_lookup_agree now (err _) db w = refl

    settle_transfer_agree :
        (command : TransferCommand) (now : ℕ) (outcome : Result ProviderTransfer) (db : Database)
        (w : W)
        → find' command ≡ env.find_transfer command
        → settle_transfer worker env' job command now outcome db w
          ≡ settle_transfer worker env job command now outcome db w
    unfolding settle_transfer handle_timeout handle_transient handle_permanent finalize_after_lookup
        fetch finish_succeeded finish_failed finish_retry finish_unknown
    settle_transfer_agree command now (ok transfer) db w same = refl
    settle_transfer_agree command now (err (provider e)) db w same =
        let (found, w') = env.find_transfer command w in
        rw same (ground (arith, settle_lookup_agree now found (env.meanwhile w' db) w'))
    settle_transfer_agree command now (err _) db w same = refl

    -- The worker uses the provider at one command only, the one that the job's invoice and net
    -- amount determine: providers that agree on it lead to the same result, database and world.
    pub process_claimed_one_command :
        (now : ℕ) (db : Database) (w : W)
        → ensure' (command_of job) ≡ env.ensure_transfer (command_of job)
        → find' (command_of job) ≡ env.find_transfer (command_of job)
        → process_claimed worker
            (record env { ensure_transfer = ensure'; find_transfer = find' })
            job
            now
            db
            w
          ≡ process_claimed worker env job now db w
    unfolding process_claimed ensure reconcile_unknown fetch
    process_claimed_one_command now db w same_ensure same_find =
        let (found, w₁) = env.find_transfer (command_of job) w in
        let (outcome, w₂) = env.ensure_transfer (command_of job) w in
        rw (same_ensure, same_find)
          (ground (
            arith,
            settle_reconciliation_agree now found (env.meanwhile w₁ db) w₁,
            settle_transfer_agree (command_of job) now outcome (env.meanwhile w₂ db) w₂ same_find,
          ))

  settle_reconciliation-Follows :
      (now : ℕ) (found : Result (Option ProviderTransfer)) (db : Database) (w : W)
      → Follows found (settle_reconciliation worker env job now found db w)
        × ((settle_reconciliation worker env job now found db w).2 ≡ w)
  unfolding settle_reconciliation finish_succeeded finish_failed finish_retry finish_unknown
  settle_reconciliation-Follows now (ok (some transfer)) db w = (ground arith, ground arith)
  settle_reconciliation-Follows now (ok none) db w = (ground arith, ground arith)
  settle_reconciliation-Follows now (err (provider e)) db w = (ground arith, ground arith)
  settle_reconciliation-Follows now (err _) db w = (tt, refl)

  process_unknown :
      (now : ℕ) (db : Database) (w : W)
      → job.claimed_from ≡ some TransferStatus.unknown
      → process_claimed worker env job now db w
        ≡ settle_reconciliation worker env job now
            (env.find_transfer (command_of job) w).0
            (env.meanwhile (env.find_transfer (command_of job) w).1 db)
            (env.find_transfer (command_of job) w).1
  unfolding process_claimed reconcile_unknown fetch was_unknown
  process_unknown now db w e =
      let known : was_unknown job.claimed_from ≡ true = ap was_unknown e in ground (arith, known)

  -- In the call after a claim from UNKNOWN, the provider is asked once, for the transfer of the job's
  -- command, and nothing is created: the call does not depend on what `ensure_transfer` does, and
  -- leaves the world as the lookup did. What it returns, if it does not raise, follows from the
  -- lookup: a success where a transfer is found, a failure or a retry where none is, and a failure
  -- or another lookup where it fails.
  pub process_unknown_looks_up :
      (ensure' : TransferCommand → Call W ProviderTransfer) (now : ℕ) (db : Database) (w : W)
      → job.claimed_from ≡ some TransferStatus.unknown
      → (process_claimed worker (record env { ensure_transfer = ensure' }) job now db w
          ≡ process_claimed worker env job now db w)
        × ((process_claimed worker env job now db w).2 ≡ (env.find_transfer (command_of job) w).1)
        × Follows (env.find_transfer (command_of job) w).0 (process_claimed worker env job now db w)
  unfolding was_unknown process_claimed ensure reconcile_unknown settle_transfer handle_timeout
      handle_transient handle_permanent finalize_after_lookup settle_lookup settle_reconciliation
      fetch finish_succeeded finish_failed finish_retry finish_unknown
  process_unknown_looks_up ensure' now db w e =
      let (found, w₁) = env.find_transfer (command_of job) w in
      let follows = settle_reconciliation-Follows now found (env.meanwhile w₁ db) w₁ in
      let known = process_unknown now db w e in
      (rw e refl, ap (λ r. r.2) known ∙ follows.1, subst (Follows found) (sym known) (follows.0))

  -- Where a call for an exhausted job times out or fails for a moment, and the lookup that follows
  -- fails for good, the error leaves the worker and the job is not ended: the database is as other
  -- processes left it.
  pub exhausted_lookup_raises :
      (now : ℕ) (db : Database) (w w₁ w₂ : W) (first second : ProviderError)
      → is_exhausted worker job ≡ true
      → was_unknown job.claimed_from ≡ false
      → env.ensure_transfer (command_of job) w ≡ (err (provider first), w₁)
      → is_transient first ≡ true
      → env.find_transfer (command_of job) w₁ ≡ (err (provider second), w₂)
      → is_permanent second ≡ true
      → process_claimed worker env job now db w
        ≡ (err (provider second), env.meanwhile w₂ (env.meanwhile w₁ db), w₂)
  unfolding process_claimed ensure settle_transfer handle_timeout handle_transient
      finalize_after_lookup fetch settle_lookup
  exhausted_lookup_raises now db w w₁ w₂ first second out known e t e' p = ground arith
