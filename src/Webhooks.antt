-- ===== src/Webhooks.antt =====
-- application/webhooks.py: a webhook delivery, from its bytes to what the database records. The
-- verifier, `sha256`, the clock and `uuid4` belong to the environment.
pub mod Funding
use starkbank_backend_challe.Base.{ℕ, Option, none, some, String}
use starkbank_backend_challe.Base.Int.{ℤ}
use starkbank_backend_challe.Domain.Errors.{Error, Result, ok, err, provider, unexpected_workspace}
use starkbank_backend_challe.Domain.Events.{VerifiedEvent, EventRecord, credited_invoice, ignored}
use starkbank_backend_challe.Domain.Money.{calculate_net_amount}
use starkbank_backend_challe.Domain.Status.{EventWriteResult}
use starkbank_backend_challe.Service.{
  Action, pure, raise, transact, attempt, ◌>>=◌, ◌>>◌, Clock, read_clock, Call, call,
}
use starkbank_backend_challe.Schema.{Database}
use starkbank_backend_challe.EventStore.{record_event, record_ignored_workspace}

pub record WebhookEnv (W Bytes : Type 0) : Type 0 where
  pub clock : Clock W
  pub verify_event : Bytes → String → Call W VerifiedEvent
  pub sha256 : Bytes → String
  pub uuid4 : W → String × W
  pub meanwhile : W → Database → Database

-- `calculate_net_amount`, with `None` where it raises.
unfoldable pub net_or_none : Result ℤ → Option ℤ
net_or_none (ok net_amount) = some net_amount
net_or_none (err _) = none

unfoldable pub net_amount_of : VerifiedEvent → Option ℤ
net_amount_of (credited_invoice event) = net_or_none (calculate_net_amount event.amount event.fee)
net_amount_of _ = none

module _ {W Bytes : Type 0} (env : WebhookEnv W Bytes) where
  unfoldable pub new_id : Action W String
  new_id db w = let (id, w') = env.uuid4 w in (ok id, db, w')

  unfoldable pub record_verified : Bytes → VerifiedEvent → Action W EventWriteResult
  unfolding new_id
  record_verified content event = do
    now ← read_clock env.clock
    job_id ← new_id
    transact (
        record_event job_id (record {
          event = event;
          payload_hash = env.sha256 content;
          received_at = now;
          net_amount = net_amount_of event;
        }))

  -- What is stored of the event of another workspace.
  unfoldable pub foreign_record :
      Bytes → ℕ → (workspace_id event_id subscription log_type : String) → EventRecord
  foreign_record content now workspace_id event_id subscription log_type = record {
    event = ignored (record {
      event_id = event_id;
      subscription = subscription;
      log_type = log_type;
      workspace_id = workspace_id;
    });
    payload_hash = env.sha256 content;
    received_at = now;
    net_amount = none;
  }

  -- It is stored, and its error raised again.
  unfoldable pub reject_workspace : Bytes → Error → Action W EventWriteResult
  reject_workspace content
        (provider (unexpected_workspace operation workspace_id event_id subscription log_type)) =
      do
        now ← read_clock env.clock
        transact (
            record_ignored_workspace
              (foreign_record content now workspace_id event_id subscription log_type))
        raise
            (provider (unexpected_workspace operation workspace_id event_id subscription log_type))
  reject_workspace content error = raise error

  unfoldable pub verified : Bytes → Result VerifiedEvent → Action W EventWriteResult
  verified content (ok event) = record_verified content event
  verified content (err error) = reject_workspace content error

  unfoldable pub receive : Bytes → String → Action W EventWriteResult
  receive content signature = do
    event ← attempt (call env.meanwhile (env.verify_event content signature))
    verified content event
