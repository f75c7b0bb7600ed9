-- ===== src/TransferStore.antt =====
-- persistence/transfer_store.py: the queue of transfer jobs. Every method is one transaction, and
-- FOR UPDATE SKIP LOCKED is the argument `locked`: the rows that other open transactions hold.
pub mod Constraints
pub mod Claim
pub mod Handout
pub mod Fencing
pub mod Lifecycle
use starkbank_backend_challe.Base.{
  ℕ, ◌+◌, Bool, true, false, not, ◌&&◌, ◌||◌, Option, none, some, List, map, String, ◌==◌, leb, eqb,
  reached, holds_at, is_none, if◌then◌else◌, select_where, update_where, count_where, take,
}
use starkbank_backend_challe.Base.Int.{ℤ}
use starkbank_backend_challe.Base.Select.{OrderBy, first_by}
use starkbank_backend_challe.Domain.Errors.{Result}
use starkbank_backend_challe.Domain.Time.{Datetime, aware}
use starkbank_backend_challe.Domain.Models.{JobClaim, TransferJob, ProviderTransfer}
use starkbank_backend_challe.Domain.Status.{
  TransferStatus, processing, succeeded, pending, unknown, permanent_failure, is_waiting,
  is_processing, is_succeeded,
}
use starkbank_backend_challe.Schema.{Database, TransferJobRow}
use starkbank_backend_challe.Transaction.{
  Tx, pure, gets, ◌>>=◌, ◌>>◌, write_transfer_jobs, touch_transfer_jobs,
}

pub record JobFinish : Type 0 where
  pub status : TransferStatus
  pub now : ℕ
  pub provider_transfer_id : Option String
  pub error_code : Option String
  pub next_attempt_at : ℕ
  pub provider_status : Option String
  pub provider_log_type : Option String
  pub provider_status_updated_at : Option Datetime

pub record TransferSyncCandidate : Type 0 where
  pub id : String
  pub invoice_id : String
  pub net_amount : ℤ

-- The WHERE of `claim`: a waiting job that is due, or one whose lease has run out.
unfoldable pub is_due : ℕ → TransferJobRow → Bool
is_due now r =
    is_waiting r.status && leb r.next_attempt_at now
    || is_processing r.status && reached r.lease_until now

unfoldable pub take_lease : JobClaim → TransferJobRow → TransferJobRow
take_lease c r = record r {
  status = processing;
  attempts = r.attempts + 1;
  lease_until = some c.lease_until;
  updated_at = c.now;
}

unfoldable pub claimed_job : JobClaim → TransferJobRow → TransferJob
claimed_job c r = record {
  id = r.id;
  event_id = r.event_id;
  invoice_id = r.invoice_id;
  amount = r.amount;
  fee = r.fee;
  net_amount = r.net_amount;
  external_id = r.external_id;
  tag = r.tag;
  status = processing;
  attempts = r.attempts + 1;
  lease_until = c.lease_until;
  claimed_from = some r.status;
}

unfoldable pub next_job :
    OrderBy → (TransferJobRow → Bool) → ℕ → List TransferJobRow → Option TransferJobRow
next_job sql locked now rows =
    first_by sql (λ r. r.next_attempt_at) (λ r. is_due now r && not (locked r)) rows

unfoldable pub claim : OrderBy → (TransferJobRow → Bool) → JobClaim → Tx (Option TransferJob)
claim sql locked c = do
  row ← gets (λ db. next_job sql locked c.now db.transfer_jobs)
  elim row [
    | none ↦ pure none
    | some r ↦ do
      touch_transfer_jobs (update_where (λ x. x.id == r.id) (take_lease c))
      pure (some (claimed_job c r))
  ]

unfoldable pub sync_candidates : OrderBy → ℕ → Database → List TransferSyncCandidate
sync_candidates sql limit db =
    map (λ r. record { id = r.id; invoice_id = r.invoice_id; net_amount = r.net_amount })
      (take limit (
        sql.sort TransferJobRow (λ r. r.created_at)
          (select_where (λ r. is_succeeded r.status && is_none r.provider_status)
            db.transfer_jobs)))

unfoldable pub refreshed : ProviderTransfer → ℕ → TransferJobRow → TransferJobRow
refreshed transfer now r = record r {
  provider_transfer_id = some transfer.id;
  provider_status = some transfer.status;
  provider_status_updated_at = some (aware now);
  updated_at = now;
}

unfoldable pub refresh_provider_status : String → ProviderTransfer → ℕ → Tx (Unit {0})
refresh_provider_status job_id transfer now =
    write_transfer_jobs (update_where (λ r. r.id == job_id) (refreshed transfer now))

-- The WHERE of `_finish`: the job is still held under the lease of the claim.
unfoldable pub holds_lease : TransferJob → TransferJobRow → Bool
holds_lease job r =
    r.id == job.id && is_processing r.status && holds_at r.lease_until job.lease_until

unfoldable pub finished : JobFinish → TransferJobRow → TransferJobRow
finished finish r = record r {
  status = finish.status;
  next_attempt_at = finish.next_attempt_at;
  lease_until = none;
  provider_transfer_id = finish.provider_transfer_id;
  provider_status = finish.provider_status;
  provider_log_type = finish.provider_log_type;
  provider_status_updated_at = finish.provider_status_updated_at;
  last_error_code = finish.error_code;
  updated_at = finish.now;
}

-- `_finish`: whether exactly one row was updated.
unfoldable pub finish_job : TransferJob → JobFinish → Tx Bool
finish_job job finish = do
  rowcount ← gets (λ db. count_where (holds_lease job) db.transfer_jobs)
  write_transfer_jobs (update_where (holds_lease job) (finished finish))
  pure (eqb rowcount 1)

unfoldable pub succeeded_finish : ProviderTransfer → ℕ → JobFinish
succeeded_finish transfer now = record {
  status = succeeded;
  now = now;
  provider_transfer_id = some transfer.id;
  error_code = none;
  next_attempt_at = now;
  provider_status = some transfer.status;
  provider_log_type = none;
  provider_status_updated_at = some (aware now);
}

-- The record that `retry`, `unknown` and `failed` write.
unfoldable pub error_finish : TransferStatus → String → ℕ → ℕ → JobFinish
error_finish status error_code now next_attempt_at = record {
  status = status;
  now = now;
  provider_transfer_id = none;
  error_code = some error_code;
  next_attempt_at = next_attempt_at;
  provider_status = none;
  provider_log_type = none;
  provider_status_updated_at = none;
}

unfoldable pub mark_succeeded : TransferJob → ProviderTransfer → ℕ → Tx Bool
mark_succeeded job transfer now = finish_job job (succeeded_finish transfer now)

unfoldable pub mark_retry : TransferJob → String → ℕ → ℕ → Tx Bool
mark_retry job error_code now delay =
    finish_job job (error_finish pending error_code now (now + delay))

unfoldable pub mark_unknown : TransferJob → String → ℕ → ℕ → Tx Bool
mark_unknown job error_code now delay =
    finish_job job (error_finish unknown error_code now (now + delay))

unfoldable pub mark_failed : TransferJob → String → ℕ → Tx Bool
mark_failed job error_code now = finish_job job (error_finish permanent_failure error_code now now)
