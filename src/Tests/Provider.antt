-- ===== src/Tests/Provider.antt =====
-- The provider's client, and what is built on it.
use starkbank_backend_challe.Base.{
  eqb, if◌then◌else◌, ℕ, ◌+◌, ◌≡◌, refl, ◌⊎◌, true, false, none, some, List, [], ◌∷◌, ◌++◌, String,
  Perm, exists_where, select_where, ◌==◌,
}
use starkbank_backend_challe.Base.Int.{pos}
use starkbank_backend_challe.Domain.Errors.{ok, err, provider, permanent}
use starkbank_backend_challe.Domain.Events.{credited_invoice}
use starkbank_backend_challe.Domain.Models.{ProviderWebhook, TransferCommand}
use starkbank_backend_challe.Domain.Transfer.{build_transfer_command}
use starkbank_backend_challe.Service.{Clock}
use starkbank_backend_challe.TransferStore.{claimed_job}
use starkbank_backend_challe.TransferWorker.{WorkerResult, is_exhausted, process_claimed}
use starkbank_backend_challe.TransferWorker.Commands.{command_of}
use starkbank_backend_challe.TransferWorker.Reports.{stored_status}
use starkbank_backend_challe.TransferStore.{take_lease}
use starkbank_backend_challe.Domain.Status.{TransferStatus}
use starkbank_backend_challe.Provider.Sdk.{
  Sdk, StarkBankClient, answered, failed, end, item, input_errors, unknown_error, require_live,
}
use starkbank_backend_challe.Provider.Transfers.{
  provider_transfer, find_in, find_transfer, refused_transfer, created_transfer, create_transfer,
  ensure_after, ensure_transfer,
}
use starkbank_backend_challe.Provider.Events.{
  is_foreign, own_event, read_event, credited_event, parsed_event, verify_event,
}
use starkbank_backend_challe.Provider.Subscriptions.{
  has_subscriptions, inspection_of, ensure_webhook, inspect_webhooks, list_webhooks,
  listed_webhooks, inspected, split_active, ensure_inspected, replace_stale, delete_all,
  create_webhook, created_webhook, confirm_webhook, confirmed, provider_webhook,
}
use starkbank_backend_challe.Provider.Ensured.{Serves, ensure_webhook-Serves}
use starkbank_backend_challe.Provider.Failures.{IsRefused, ensure_transfer-IsRefused}
use starkbank_backend_challe.Provider.Verified.{IsVerified, verify_event-IsVerified}
use starkbank_backend_challe.Provider.Inspection.{all_of, active_fits, is_some, inspection_of_url}
use starkbank_backend_challe.Provider.Worker.{IsSound, assembled_ends}
use starkbank_backend_challe.Config.{Settings, build_worker, worker_env}
use starkbank_backend_challe.Commands.{CleanupResult, delete_events}
use starkbank_backend_challe.Commands.Counts.{handled, delete_events-handled}
use starkbank_backend_challe.Tests.Data.{payment}
use starkbank_backend_challe.Tests.Jobs.{first_job, after_first}
use starkbank_backend_challe.Tests.Worker.{env, first_job-IsHeld, after_first_consistent}

-- An SDK whose objects are texts. It finds no transfer and refuses to create one, and deletes no
-- event; every event is a credit.
abbrev sdk : Sdk ℕ String String
sdk = record {
  invoice_create = λ requests w. (answered ("invoice" ∷ []), w + 1);
  invoice_query = λ limit tags w. (end, w + 1);
  transfer_create = λ requests w. (failed input_errors, w + 1);
  transfer_query = λ limit tags w. (end, w + 1);
  event_parse = λ content signature w. (answered "event", w + 1);
  event_query = none;
  event_delete = some (λ id w. (failed unknown_error, w + 1));
  webhook_create = λ url subscriptions w. (answered "webhook", w + 1);
  webhook_query = λ w. (end, w + 1);
  webhook_delete = none;
  decode = λ content. some content;
  utc_text = λ at. "";
  sdk_invoice = λ object. some object;
  sdk_transfer = λ object. none;
  sdk_lifecycle = λ object. none;
  sdk_event = λ object. some (record {
    id = "event-3";
    subscription = "invoice";
    workspace_id = "workspace";
    log = "log";
  });
  sdk_log = λ object. some "credited";
  sdk_transfer_log = λ object. none;
  sdk_credited_log = λ object. some "invoice";
  sdk_credited_invoice = λ object. some (record {
    id = "invoice-3";
    amount = pos 300;
    fee = pos 20;
    tags = "other" ∷ "trial:draft-3" ∷ [];
  });
  sdk_webhook = λ object. none;
}

abbrev client : StarkBankClient ℕ String String
client = record {
  sdk = sdk;
  expected_workspace_id = some "workspace";
  live_operations_enabled = true;
}

abbrev command : TransferCommand
command = build_transfer_command "invoice-1" (pos 950)

ensure_transfer-IsRefused_example :
    ((find_transfer client command 0).0 ≡ err (provider (permanent "create_transfer")))
    ⊎ IsRefused client command (find_transfer client command 0).1
unfolding ensure_transfer ensure_after create_transfer created_transfer refused_transfer
    find_transfer find_in require_live
ensure_transfer-IsRefused_example =
    ensure_transfer-IsRefused client command 0 (permanent "create_transfer") refl refl refl

verify_event-IsVerified_example :
    IsVerified client "content" "signature" 0 (credited_invoice payment)
unfolding verify_event parsed_event read_event own_event credited_event is_foreign
verify_event-IsVerified_example =
    verify_event-IsVerified client "content" "signature" 0 (credited_invoice payment) refl

abbrev webhook : String → String → List String → ProviderWebhook
webhook id url subscriptions = record { id = id; url = url; subscriptions = subscriptions }

abbrev webhooks : List ProviderWebhook
webhooks =
    webhook "1" "here" ("invoice" ∷ [])
    ∷ webhook "2" "there" ("invoice" ∷ "transfer" ∷ [])
    ∷ webhook "3" "here" ("transfer" ∷ "invoice" ∷ [])
    ∷ []

inspection_of_url_example :
    (is_some (inspection_of "here" webhooks).active
      ≡ exists_where has_subscriptions (select_where (λ webhook. webhook.url == "here") webhooks))
    × (active_fits (inspection_of "here" webhooks).active ≡ true)
    × Perm
        (all_of (inspection_of "here" webhooks))
        (select_where (λ webhook. webhook.url == "here") webhooks)
inspection_of_url_example = inspection_of_url "here" webhooks

abbrev system_clock : Clock ℕ
system_clock = record { now = λ w. (w, w) }

delete_events-handled_example :
    (after : CleanupResult) × ((delete_events client system_clock
        (λ w db. db)
        ("event-1" ∷ "event-2" ∷ [])
        (record { deleted = []; failed = [] })
        0).0
      ≡ ok after)
    × Perm (handled client system_clock (λ w db. db) refl after) (
        handled client system_clock (λ w db. db) refl (record { deleted = []; failed = [] })
        ++ ("event-1" ∷ "event-2" ∷ []))
delete_events-handled_example =
    delete_events-handled client system_clock (λ w db. db) refl ("event-1" ∷ "event-2" ∷ [])
      (record { deleted = []; failed = [] }) 0

abbrev settings : Settings
settings = record {
  database_url = "sqlite://";
  compose_project_name = none;
  starkbank_environment = "sandbox";
  starkbank_project_id = none;
  starkbank_workspace_id = none;
  starkbank_private_key_file = none;
  public_base_url = none;
  starkbank_sandbox_live_enabled = true;
  max_content_length = 1048576;
  worker_lease_seconds = 120;
  batch_lease_seconds = 300;
  retry_base_seconds = 5;
  invoice_max_attempts = 5;
  invoice_reconciliation_max_attempts = 5;
  transfer_max_attempts = 1;
  batch_max_attempts = 15;
  review_api_enabled = false;
  review_api_token = none;
  review_api_rate_limit = "10 per minute;100 per hour";
}

-- One that finds a transfer of the tag with another external id, and then the job's own.
abbrev finding : StarkBankClient ℕ String String
finding = record client {
  sdk = record sdk {
    transfer_query = λ limit tags w. (item "other" (item "own" end), w + 1);
    sdk_transfer = λ object. some (
        if object == "own"
        then record {
          id = "transfer-1";
          external_id = "trial-transfer-invoice-1";
          status = "created";
        }
        else record { id = "transfer-9"; external_id = "other"; status = "created" });
  };
}

finding-IsSound :
    (w : ℕ)
    → IsSound finding first_job after_first
        (finding.sdk.transfer_query 10 ((command_of first_job).tag ∷ []) w).0
unfolding claimed_job take_lease provider_transfer
finding-IsSound w = ((_, refl, refl), ((_, refl, refl), tt))

assembled_ends_example :
    (((process_claimed
          (build_worker settings)
          (worker_env finding env)
          first_job
          25
          after_first
          0).0
        ≡ ok WorkerResult.succeeded)
      × (stored_status "job-1"
            (process_claimed
              (build_worker settings)
              (worker_env finding env)
              first_job
              25
              after_first
              0).1
          ≡ some TransferStatus.succeeded))
    ⊎ (((process_claimed
            (build_worker settings)
            (worker_env finding env)
            first_job
            25
            after_first
            0).0
          ≡ ok WorkerResult.permanent_failure)
        × (stored_status "job-1"
              (process_claimed
                (build_worker settings)
                (worker_env finding env)
                first_job
                25
                after_first
                0).1
            ≡ some TransferStatus.permanent_failure))
unfolding build_worker is_exhausted claimed_job
assembled_ends_example =
    assembled_ends finding first_job after_first settings env 25 0 refl (λ w db. refl)
      finding-IsSound (λ w. tt) first_job-IsHeld after_first_consistent refl

-- One whose provider has no webhook in the first world, and the good one from then on.
abbrev subscribing : StarkBankClient ℕ String String
subscribing = record client {
  sdk = record sdk {
    webhook_query = λ w. (if eqb w 0 then end else item "webhook" end, w + 1);
    sdk_webhook = λ object.
        some (record { id = "3"; url = "here"; subscriptions = "transfer" ∷ "invoice" ∷ [] });
  };
}

ensure_webhook-Serves_example : Serves "here" (webhook "3" "here" ("transfer" ∷ "invoice" ∷ []))
unfolding ensure_webhook require_live inspect_webhooks list_webhooks listed_webhooks inspected
    inspection_of split_active ensure_inspected replace_stale delete_all create_webhook
    created_webhook confirm_webhook confirmed has_subscriptions provider_webhook
ensure_webhook-Serves_example =
    ensure_webhook-Serves subscribing "here" 0 (webhook "3" "here" ("transfer" ∷ "invoice" ∷ []))
      refl
