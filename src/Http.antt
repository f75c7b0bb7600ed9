-- ===== src/Http.antt =====
-- http/app.py: the webhook endpoint. Flask, the log and the health checks are left out.
pub mod Acknowledged
use starkbank_backend_challe.Base.{ℕ, Bool, Option, none, some, String, if◌then◌else◌}
use starkbank_backend_challe.Domain.Errors.{
  Error, Result, ok, err, provider, invalid_webhook, unexpected_workspace, is_transient,
}
use starkbank_backend_challe.Domain.Status.{EventWriteResult}
use starkbank_backend_challe.Domain.Values.{outcome_value}
use starkbank_backend_challe.Service.{Action, pure, raise, attempt, ◌>>=◌}
use starkbank_backend_challe.Webhooks.{WebhookEnv, receive}

-- `jsonify(status=…)` with 200, or `jsonify(error=…)` with a status code
pub data Reply : Type 0 where
  accepted : (status : String) → Reply
  refused : (code : ℕ) → (error : String) → Reply

-- The answer to what `receive` returns or raises; another exception leaves the view, which Flask
-- answers with 500.
unfoldable pub webhook_reply : {W : Type 0} → Result EventWriteResult → Action W Reply
webhook_reply (ok outcome) = pure (accepted (outcome_value outcome))
webhook_reply (err (provider (invalid_webhook _))) = pure (refused 400 "invalid webhook")
webhook_reply (err (provider (unexpected_workspace _ _ _ _ _))) =
    pure (accepted "ignored_workspace")
webhook_reply (err (provider e)) =
    if is_transient e then pure (refused 503 "verification unavailable") else raise (provider e)
webhook_reply (err e) = raise e

module _ {W Bytes : Type 0} (env : WebhookEnv W Bytes) where
  unfoldable pub starkbank_webhook : Option String → Bytes → Action W Reply
  starkbank_webhook none content = pure (refused 400 "missing Digital-Signature header")
  starkbank_webhook (some signature) content =
      attempt (receive env content signature) >>= webhook_reply
