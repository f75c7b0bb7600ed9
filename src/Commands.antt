-- ===== src/Commands.antt =====
-- cli.py: the commands that do more than call one service and print what it returns. Typer, the
-- output and the log are left out; a refused option is `err (value_error …)`.
pub mod Counts
pub mod Live
use Prim.Native.Char.{code}
use starkbank_backend_challe.Base.{
  ℕ, zero, suc, Bool, true, false, not, ◌&&◌, ◌||◌, Option, none, some, List, [], ◌∷◌, ◌++◌, map,
  String, ◌<>◌, leb, eqb, if◌then◌else◌,
}
use starkbank_backend_challe.Base.Select.{OrderBy}
use starkbank_backend_challe.Config.{Settings, webhook_config}
use starkbank_backend_challe.Domain.Errors.{
  ProviderError, unknown_outcome, timeout, transient, permanent, provider_error, invalid_webhook,
  unexpected_workspace, Error, Result, ok, err, provider, live_operations_disabled, value_error,
  uncaught,
}
use starkbank_backend_challe.Domain.Models.{ProviderTransfer, ProviderWebhook, WebhookInspection}
use starkbank_backend_challe.Domain.Time.{Datetime, aware, naive}
use starkbank_backend_challe.Domain.Transfer.{build_transfer_command}
use starkbank_backend_challe.Provider.Sdk.{StarkBankClient}
use starkbank_backend_challe.Provider.Events.{list_events, delete_event}
use starkbank_backend_challe.Provider.Subscriptions.{inspect_webhooks, ensure_webhook}
use starkbank_backend_challe.Provider.Transfers.{find_transfer}
use starkbank_backend_challe.Schema.{Database}
use starkbank_backend_challe.Service.{
  Action, pure, raise, transact, attempt, ◌>>=◌, ◌>>◌, Clock, read_clock, Call, call,
}
use starkbank_backend_challe.TransferStore.{
  TransferSyncCandidate, sync_candidates, refresh_provider_status,
}
use starkbank_backend_challe.TransferWorker.{
  TransferWorker, WorkerEnv, WorkerResult, process_one, should_poll,
}

unfoldable pub provider_kind : ProviderError → String
provider_kind (unknown_outcome _) = "unknown_outcome"
provider_kind (timeout _) = "timeout"
provider_kind (transient _) = "transient"
provider_kind (permanent _) = "permanent"
provider_kind (provider_error _) = "provider"
provider_kind (invalid_webhook _) = "provider"
provider_kind (unexpected_workspace _ _ _ _ _) = "provider"

-- `provider_error_kind`, `none` for an error that the commands do not catch
unfoldable pub provider_error_kind : Error → Option String
provider_error_kind (live_operations_disabled _) = some "live_operations_disabled"
provider_error_kind (provider e) = some (provider_kind e)
provider_error_kind _ = none

abbrev is_empty : String → Bool
is_empty String.[] = true
is_empty (String.◌∷◌ c s) = false

-- `rstrip("/")`
unfoldable pub rstrip_slash : String → String
rstrip_slash String.[] = ""
rstrip_slash (String.◌∷◌ c s) =
    let rest = rstrip_slash s in
    if eqb (code c) b'/' && is_empty rest then "" else String.◌∷◌ c rest

-- `f"{str(webhook_config.public_base_url).rstrip('/')}/webhooks/starkbank"`
unfoldable pub webhook_url : Settings → Result String
webhook_url settings = elim (webhook_config settings) [
  | ok base ↦ ok (rstrip_slash base <> "/webhooks/starkbank")
  | err e ↦ err e
]

pub record SyncResult : Type 0 where
  pub refreshed : ℕ
  pub unresolved : ℕ

pub record CleanupResult : Type 0 where
  pub deleted : List String
  pub failed : List String

pub record WebhookCleanup : Type 0 where
  pub active : ProviderWebhook
  pub replaced_webhook_ids : List String

unfoldable pub one_refreshed : SyncResult → SyncResult
one_refreshed result = record result { refreshed = suc result.refreshed }

unfoldable pub one_unresolved : SyncResult → SyncResult
one_unresolved result = record result { unresolved = suc result.unresolved }

module _ {W Bytes Object : Type 0} (client : StarkBankClient W Bytes Object) (clock : Clock W)
    (meanwhile : W → Database → Database) where
  unfoldable pub sync_found :
      TransferSyncCandidate → SyncResult → Result (Option ProviderTransfer) → Action W SyncResult
  sync_found candidate result (ok (some transfer)) = do
    now ← read_clock clock
    transact (refresh_provider_status candidate.id transfer now)
    pure (one_refreshed result)
  sync_found candidate result (ok none) = pure (one_unresolved result)
  sync_found candidate result (err (provider e)) = pure (one_unresolved result)
  sync_found candidate result (err e) = raise e

  unfoldable pub sync_all : List TransferSyncCandidate → SyncResult → Action W SyncResult
  sync_all [] result = pure result
  sync_all (candidate ∷ candidates) result = do
    found ← attempt (
        call meanwhile
          (find_transfer client (build_transfer_command candidate.invoice_id candidate.net_amount)))
    next ← sync_found candidate result found
    sync_all candidates next

  -- `sync-transfer-statuses`
  unfoldable pub sync_transfer_statuses : OrderBy → ℕ → Action W SyncResult
  sync_transfer_statuses sql limit db w =
      sync_all (sync_candidates sql limit db) (record { refreshed = 0; unresolved = 0 }) db w

  -- What `cleanup-webhooks` does with the inspection.
  unfoldable pub cleanup_inspected : String → WebhookInspection → Call W WebhookCleanup
  cleanup_inspected url inspection w = elim inspection.active [
    | some active ↦ (ok (record { active = active; replaced_webhook_ids = [] }), w)
    | none ↦
        let (active, w') = ensure_webhook client url w in
        elim active [
          | ok webhook ↦ (
            ok (record {
              active = webhook;
              replaced_webhook_ids = map (λ stale. stale.id) inspection.stale;
            }),
            w',
          )
          | err e ↦ (err e, w')
        ]
  ]

  unfoldable pub cleanup_url : Result String → Call W WebhookCleanup
  cleanup_url (err e) w = (err e, w)
  cleanup_url (ok url) w =
      let (inspection, w') = inspect_webhooks client url w in
      elim inspection [ ok i ↦ cleanup_inspected url i w' | err e ↦ (err e, w') ]

  unfoldable pub cleanup_webhooks : Settings → Bool → Call W WebhookCleanup
  cleanup_webhooks settings confirm_sandbox w =
      if not settings.starkbank_sandbox_live_enabled || not confirm_sandbox
      then (err (value_error "sandbox confirmation"), w)
      else cleanup_url (webhook_url settings) w

  unfoldable pub deletion : String → CleanupResult → Result (Unit {0}) → Result CleanupResult
  deletion event_id result (ok _) = ok (record result { deleted = result.deleted ++ event_id ∷ [] })
  deletion event_id result (err (provider e)) =
      ok (record result { failed = result.failed ++ event_id ∷ [] })
  deletion event_id result (err e) = err e

  -- The loop of `cleanup-events`.
  unfoldable pub delete_events : List String → CleanupResult → Call W CleanupResult
  delete_events [] result w = (ok result, w)
  delete_events (event_id ∷ event_ids) result w =
      let (answer, w') = delete_event client event_id w in
      elim (deletion event_id result answer) [
        | ok next ↦ delete_events event_ids next w'
        | err e ↦ (err e, w')
      ]

  -- `before_dt is not None and before_dt <= after_dt`; Python refuses to compare a datetime with a
  -- zone to one without.
  unfoldable pub is_empty_window : Datetime → Option Datetime → Result Bool
  is_empty_window after none = ok false
  is_empty_window (aware after) (some (aware before)) = ok (leb before after)
  is_empty_window (naive after) (some (naive before)) = ok (leb before after)
  is_empty_window _ (some _) = err (uncaught "TypeError")

  -- `cleanup-events`
  unfoldable pub cleanup_events :
      Settings → Bool → Datetime → Option Datetime → Call W CleanupResult
  cleanup_events settings confirm_sandbox after before w =
      let (listed, w') = list_events client after before w in
      if not settings.starkbank_sandbox_live_enabled || not confirm_sandbox
      then (err (value_error "sandbox confirmation"), w)
      else (elim (is_empty_window after before) [
        | err e ↦ (err e, w)
        | ok true ↦ (err (value_error "time window"), w)
        | ok false ↦ elim listed [
          | ok event_ids ↦ delete_events event_ids (record { deleted = []; failed = [] }) w'
          | err e ↦ (err e, w')
        ]
      ])

-- The first passes of the loop of `worker run`: `sleep` waits for the poll interval. What
-- `process_one` raises ends the command.
module _ {W : Type 0} (worker : TransferWorker) (env : WorkerEnv W) (sleep : W → W) where
  unfoldable pub rest_if : Bool → Action W (Unit {0})
  rest_if true db w = (ok tt, db, sleep w)
  rest_if false db w = (ok tt, db, w)

  unfoldable pub worker_passes : ℕ → Action W (Unit {0})
  worker_passes zero = pure tt
  worker_passes (suc passes) = do
    result ← process_one worker env
    rest_if (should_poll result)
    worker_passes passes

  -- A provider error of the preflight is only logged.
  unfoldable pub preflight : Result ProviderWebhook → Action W (Unit {0})
  preflight (ok webhook) = pure tt
  preflight (err (provider e)) = pure tt
  preflight (err (live_operations_disabled operation)) = pure tt
  preflight (err e) = raise e

  unfoldable pub ensure_url :
      (String → Call W ProviderWebhook) → Result String → Action W (Unit {0})
  ensure_url ensure (err e) = raise e
  ensure_url ensure (ok url) = attempt (call env.meanwhile (ensure url)) >>= preflight

  -- `worker run`; `ensure` is the client's `ensure_webhook`.
  unfoldable pub worker_run : Settings → (String → Call W ProviderWebhook) → ℕ → Action W (Unit {0})
  worker_run settings ensure passes =
      if settings.starkbank_sandbox_live_enabled
      then (ensure_url ensure (webhook_url settings) >> worker_passes passes)
      else worker_passes passes
