-- ===== src/Tests/Worker.antt =====
-- The worker.
use starkbank_backend_challe.Base.{
  ℕ, ltb, if◌then◌else◌, ◌≤◌, ◌+◌, ◌*◌, ◌≡◌, refl, ap, subst, arith, ◌⊎◌, true, Option, none, some,
}
use starkbank_backend_challe.Base.Insertion.{insertion}
use starkbank_backend_challe.Domain.Errors.{ok, err, provider, transient, permanent}
use starkbank_backend_challe.Domain.Models.{TransferJob, TransferCommand, ProviderTransfer}
use starkbank_backend_challe.Domain.Status.{TransferStatus}
use starkbank_backend_challe.Domain.Time.{seconds}
use starkbank_backend_challe.Schema.{transfer_jobs_constraints}
use starkbank_backend_challe.Service.{Call}
use starkbank_backend_challe.TransferStore.{take_lease, claimed_job}
use starkbank_backend_challe.TransferWorker.{
  WorkerResult, TransferWorker, WorkerEnv, backoff, is_exhausted, process_claimed, was_unknown,
}
use starkbank_backend_challe.TransferWorker.Backoff.{backoff_doubles}
use starkbank_backend_challe.TransferWorker.Ended.{IsEnded, process_claimed-IsEnded}
use starkbank_backend_challe.TransferWorker.Reports.{
  Reports, IsHeld, stored_status, claim-IsHeld, process_claimed-Reports,
}
use starkbank_backend_challe.TransferWorker.Commands.{
  process_claimed_one_command, Follows, process_unknown_looks_up, exhausted_lookup_raises,
}
use starkbank_backend_challe.TransferWorker.Returns.{IsOrderly, HasRoom, exhausted_ends}
use starkbank_backend_challe.Tests.Data.{store, no_lock, first_claim, sent}
use starkbank_backend_challe.Tests.Jobs.{first_job, after_first, first_taken}

abbrev worker : TransferWorker
worker = record {
  lease_seconds = 30;
  retry_base_seconds = 2;
  transfer_max_attempts = 1;
  live_operations_enabled = true;
}

-- A provider that creates nothing, and fails for a moment; the world counts the calls.
abbrev absent : TransferCommand → Call ℕ (Option ProviderTransfer)
absent command w = (ok none, w + 1)

abbrev busy : TransferCommand → Call ℕ ProviderTransfer
busy command w = (err (provider (transient "create_transfer")), w + 1)

abbrev creates : TransferCommand → Call ℕ ProviderTransfer
creates command w = (ok sent, w + 1)

abbrev pub env : WorkerEnv ℕ
env = record {
  sql = insertion;
  clock = record { now = λ w. (w, w) };
  ensure_transfer = busy;
  find_transfer = absent;
  meanwhile = λ w db. db;
  locked = λ w. no_lock;
}

-- One that answers no lookup of this job.
abbrev refusing : WorkerEnv ℕ
refusing = record env {
  find_transfer = λ command w. (err (provider (permanent "find_transfer")), w + 1);
}

backoff_doubles_example :
    (backoff worker (record first_job { attempts = 2 })
      ≡ (if ltb 1 9 then 2 * backoff worker first_job else backoff worker first_job))
    × (2 * 500000 ≤ backoff worker first_job)
    × (backoff worker first_job ≤ seconds (2 * 256))
unfolding claimed_job
backoff_doubles_example = backoff_doubles worker first_job (record first_job { attempts = 2 }) refl

process_claimed-IsEnded_example :
    IsEnded "job-1" (process_claimed worker env first_job 25 after_first 0)
unfolding is_exhausted claimed_job
process_claimed-IsEnded_example =
    process_claimed-IsEnded worker env (λ w db. refl) first_job refl 25 after_first 0
      (claim-IsHeld insertion no_lock first_claim store after_first first_job first_taken)

process_claimed-Reports_example :
    Reports "job-1" (process_claimed worker env first_job 25 after_first 0)
unfolding claimed_job
process_claimed-Reports_example =
    process_claimed-Reports worker env (λ w db. refl) first_job 25 after_first 0
      (claim-IsHeld insertion no_lock first_claim store after_first first_job first_taken)

process_claimed_one_command_example :
    process_claimed worker
      (record env { ensure_transfer = busy; find_transfer = absent })
      first_job
      25
      after_first
      0
    ≡ process_claimed worker env first_job 25 after_first 0
process_claimed_one_command_example =
    process_claimed_one_command worker env first_job busy absent 25 after_first 0 refl refl

abbrev unknown_job : TransferJob
unknown_job = record first_job { claimed_from = some TransferStatus.unknown }

process_unknown_looks_up_example :
    (process_claimed worker (record env { ensure_transfer = creates }) unknown_job 25 after_first 0
      ≡ process_claimed worker env unknown_job 25 after_first 0)
    × ((process_claimed worker env unknown_job 25 after_first 0).2 ≡ 1)
    × Follows (ok none) (process_claimed worker env unknown_job 25 after_first 0)
process_unknown_looks_up_example =
    process_unknown_looks_up worker env unknown_job creates 25 after_first 0 refl

exhausted_lookup_raises_example :
    process_claimed worker refusing first_job 25 after_first 0
    ≡ (err (provider (permanent "find_transfer")), after_first, 2)
unfolding is_exhausted was_unknown claimed_job
exhausted_lookup_raises_example =
    exhausted_lookup_raises worker refusing first_job 25 after_first 0 1 2
      (transient "create_transfer") (permanent "find_transfer") refl refl refl refl refl refl

-- One whose lookup finds the transfer after all.
abbrev finding : WorkerEnv ℕ
finding = record env { find_transfer = λ command w. (ok (some sent), w + 1) }

sent-HasRoom : HasRoom first_job after_first sent
unfolding claimed_job take_lease
sent-HasRoom = refl

finding-IsOrderly : IsOrderly finding first_job after_first
finding-IsOrderly = record {
  quiet = λ w db. refl;
  ensured = λ w. refl;
  found = λ w. tt;
  ensured_room = λ w transfer h. absurd (ground (arith, h));
  found_room = λ w transfer h.
      subst (HasRoom first_job after_first) (ap (λ r. elim r [ ok (some t) ↦ t | _ ↦ sent ]) h)
        sent-HasRoom;
}

pub first_job-IsHeld : IsHeld first_job after_first
first_job-IsHeld =
    claim-IsHeld insertion no_lock first_claim store after_first first_job first_taken

pub after_first_consistent : transfer_jobs_constraints after_first.transfer_jobs ≡ true
unfolding transfer_jobs_constraints take_lease
after_first_consistent = refl

exhausted_ends_example :
    (((process_claimed worker finding first_job 25 after_first 0).0 ≡ ok WorkerResult.succeeded)
      × (stored_status "job-1" (process_claimed worker finding first_job 25 after_first 0).1
          ≡ some TransferStatus.succeeded))
    ⊎ (((process_claimed worker finding first_job 25 after_first 0).0
          ≡ ok WorkerResult.permanent_failure)
        × (stored_status "job-1" (process_claimed worker finding first_job 25 after_first 0).1
            ≡ some TransferStatus.permanent_failure))
unfolding is_exhausted claimed_job
exhausted_ends_example =
    exhausted_ends worker finding first_job after_first finding-IsOrderly first_job-IsHeld
      after_first_consistent 25 0 refl
