-- ===== src/Config.antt =====
-- config.py and bootstrap.py: the settings, what is read of them, and the services made of them.
-- Pydantic fills the fields from the environment and checks their ranges.
use starkbank_backend_challe.Base.{
  ℕ, Bool, false, not, ◌&&◌, Option, none, some, List, [], ◌∷◌, ◌++◌, String, leb, if◌then◌else◌,
}
use starkbank_backend_challe.Domain.Errors.{
  Result, ok, err, value_error, missing_provider_configuration,
}
use starkbank_backend_challe.Provider.Sdk.{Sdk, StarkBankClient}
use starkbank_backend_challe.Provider.Events.{verify_event}
use starkbank_backend_challe.Provider.Transfers.{
  create_invoice, find_invoice, ensure_transfer, find_transfer,
}
use starkbank_backend_challe.Review.Cursor.{text_len}
use starkbank_backend_challe.TransferWorker.{TransferWorker, WorkerEnv}
use starkbank_backend_challe.TrialService.{TrialService, TrialEnv}
use starkbank_backend_challe.Webhooks.{WebhookEnv}

abbrev pub min_review_token_length : ℕ
min_review_token_length = 32

pub record ProviderCredentials : Type 0 where
  pub project_id : String
  pub workspace_id : String
  pub private_key_file : String

pub record ReviewApiConfig : Type 0 where
  pub token : String
  pub rate_limit : String

-- The fields that some code reads, but the logging ones.
pub record Settings : Type 0 where
  pub database_url : String
  pub compose_project_name : Option String
  pub starkbank_environment : String
  pub starkbank_project_id : Option String
  pub starkbank_workspace_id : Option String
  pub starkbank_private_key_file : Option String
  pub public_base_url : Option String
  pub starkbank_sandbox_live_enabled : Bool
  pub max_content_length : ℕ
  pub worker_lease_seconds : ℕ
  pub batch_lease_seconds : ℕ
  pub retry_base_seconds : ℕ
  pub invoice_max_attempts : ℕ
  pub invoice_reconciliation_max_attempts : ℕ
  pub transfer_max_attempts : ℕ
  pub batch_max_attempts : ℕ
  pub review_api_enabled : Bool
  pub review_api_token : Option String
  pub review_api_rate_limit : String

-- The token is long enough.
unfoldable pub is_long_token : Option String → Bool
is_long_token none = false
is_long_token (some token) = leb min_review_token_length (text_len token)

-- `validate_review_api`
unfoldable pub validate_review_api : Settings → Result Settings
validate_review_api settings =
    if settings.review_api_enabled && not (is_long_token settings.review_api_token)
    then err (value_error "REVIEW_API_TOKEN must contain at least 32 characters")
    else ok settings

unfoldable pub review_api_config : Settings → Result (Option ReviewApiConfig)
review_api_config settings =
    if settings.review_api_enabled
    then (elim settings.review_api_token [
      | none ↦ err (value_error "REVIEW_API_TOKEN is required when review API is enabled")
      | some token ↦
          ok (some (record { token = token; rate_limit = settings.review_api_rate_limit }))
    ])
    else ok none

-- A name, where its value is missing.
unfoldable pub missing_name : String → Option String → List String
missing_name name none = name ∷ []
missing_name name (some _) = []

unfoldable pub missing_fields : Settings → List String
missing_fields settings =
    missing_name "STARKBANK_PROJECT_ID" settings.starkbank_project_id
    ++ missing_name "STARKBANK_WORKSPACE_ID" settings.starkbank_workspace_id
    ++ missing_name "STARKBANK_PRIVATE_KEY_FILE" settings.starkbank_private_key_file

-- The credentials, where all three are there.
unfoldable pub all_credentials :
    (project_id workspace_id private_key_file : Option String) → Option ProviderCredentials
all_credentials (some project_id) (some workspace_id) (some private_key_file) = some (record {
  project_id = project_id;
  workspace_id = workspace_id;
  private_key_file = private_key_file;
})
all_credentials _ _ _ = none

unfoldable pub provider_credentials : Settings → Result ProviderCredentials
provider_credentials settings =
    elim (all_credentials settings.starkbank_project_id settings.starkbank_workspace_id
      settings.starkbank_private_key_file) [
        | none ↦ err (missing_provider_configuration (missing_fields settings))
        | some credentials ↦ ok credentials
      ]

-- `webhook_config().public_base_url`
unfoldable pub webhook_config : Settings → Result String
webhook_config settings = elim settings.public_base_url [
  | none ↦ err (missing_provider_configuration ("PUBLIC_BASE_URL" ∷ []))
  | some url ↦ ok url
]

unfoldable pub smoke_namespace : Settings → Result String
smoke_namespace settings = elim settings.compose_project_name [
  | none ↦ err (missing_provider_configuration ("COMPOSE_PROJECT_NAME" ∷ []))
  | some name ↦ ok name
]

module _ {W Bytes Object : Type 0} where
  -- `build_client`: `sdk` is the SDK with a project of the id, whose key is in the file.
  unfoldable pub build_client :
      ((project_id private_key_file : String) → Sdk W Bytes Object)
      → Settings
      → Result (StarkBankClient W Bytes Object)
  build_client sdk settings = elim (provider_credentials settings) [
    | err e ↦ err e
    | ok credentials ↦ ok (record {
      sdk = sdk credentials.project_id credentials.private_key_file;
      expected_workspace_id = some credentials.workspace_id;
      live_operations_enabled = settings.starkbank_sandbox_live_enabled;
    })
  ]

-- `build_services`: the worker, the trial service and what each calls of the client.
unfoldable pub build_worker : Settings → TransferWorker
build_worker settings = record {
  lease_seconds = settings.worker_lease_seconds;
  retry_base_seconds = settings.retry_base_seconds;
  transfer_max_attempts = settings.transfer_max_attempts;
  live_operations_enabled = settings.starkbank_sandbox_live_enabled;
}

unfoldable pub build_trial : Settings → TrialService
build_trial settings = record {
  batch_lease_seconds = settings.batch_lease_seconds;
  live_operations_enabled = settings.starkbank_sandbox_live_enabled;
  retry_base_seconds = settings.retry_base_seconds;
  invoice_max_attempts = settings.invoice_max_attempts;
  invoice_reconciliation_max_attempts = settings.invoice_reconciliation_max_attempts;
  batch_max_attempts = settings.batch_max_attempts;
}

module _ {W Bytes Object : Type 0} (client : StarkBankClient W Bytes Object) where
  unfoldable pub worker_env : WorkerEnv W → WorkerEnv W
  worker_env env = record env {
    ensure_transfer = ensure_transfer client;
    find_transfer = find_transfer client;
  }

  unfoldable pub trial_env : TrialEnv W → TrialEnv W
  trial_env env = record env {
    create_invoice = create_invoice client;
    find_invoice = find_invoice client;
  }

  unfoldable pub webhook_env : WebhookEnv W Bytes → WebhookEnv W Bytes
  webhook_env env = record env { verify_event = verify_event client }
