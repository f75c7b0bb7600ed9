-- ===== src/TransferWorker/Ended.antt =====
-- A job that has used up its attempts, in the database.
use starkbank_backend_challe.Base.{ℕ, ◌≡◌, ◌∙◌, ap, ◌⊎◌, inl, inr, true, some, String}
use starkbank_backend_challe.Domain.Errors.{Result, ok, err}
use starkbank_backend_challe.Domain.Models.{TransferJob}
use starkbank_backend_challe.Domain.Status.{TransferStatus}
use starkbank_backend_challe.Schema.{Database}
use starkbank_backend_challe.TransferWorker.{
  WorkerResult, succeeded, permanent_failure, TransferWorker, WorkerEnv, is_exhausted,
  process_claimed,
}
use starkbank_backend_challe.TransferWorker.Exhaustion.{Ends, process_claimed-Ends}
use starkbank_backend_challe.TransferWorker.Reports.{
  IsHeld, Reports, reported, stored_status, process_claimed-Reports,
}

-- A result is a success that is stored as one, or a permanent failure that is stored as one.
abbrev pub IsEnded : {W : Type 0} → String → Result WorkerResult × Database × W → Type 0
IsEnded id (ok r, db, _) =
    ((r ≡ succeeded) × (stored_status id db ≡ some TransferStatus.succeeded))
    ⊎ ((r ≡ permanent_failure) × (stored_status id db ≡ some TransferStatus.permanent_failure))
IsEnded id (err _, _, _) = Unit

-- While nobody else writes, a held job that has used up its attempts is never put back into the
-- queue by a call that returns: it returns a success and the table has the job as SUCCEEDED, or a
-- permanent failure and the table has it as PERMANENT_FAILURE, whatever the provider answers. Of a
-- call that raises nothing is said.
pub process_claimed-IsEnded :
    {W : Type 0} (worker : TransferWorker) (env : WorkerEnv W)
    (quiet : (w : W) (db : Database) → env.meanwhile w db ≡ db) (job : TransferJob)
    → is_exhausted worker job ≡ true
    → (now : ℕ) (db : Database) (w : W) → IsHeld job db
    → IsEnded job.id (process_claimed worker env job now db w)
process_claimed-IsEnded {W} worker env quiet job out now db w held =
    both _ (process_claimed-Ends worker env job out now db w)
      (process_claimed-Reports worker env quiet job now db w held)
  where
    both :
        (end : Result WorkerResult × Database × W)
        → Ends end
        → Reports job.id end
        → IsEnded job.id end
    both (ok r, _, _) (inl e) stored = inl (e, stored ∙ ap reported e)
    both (ok r, _, _) (inr e) stored = inr (e, stored ∙ ap reported e)
    both (err _, _, _) h k = tt
