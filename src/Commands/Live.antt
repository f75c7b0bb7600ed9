-- ===== src/Commands/Live.antt =====
-- cli.py: `setup-webhook`, `smoke-invoice` and `smoke-batch`, which call the provider.
use starkbank_backend_challe.Base.{
  ℕ, Bool, true, false, not, ◌&&◌, ◌||◌, List, [], ◌∷◌, map, String, length, leb, eqb,
  if◌then◌else◌,
}
use starkbank_backend_challe.Config.{Settings, smoke_namespace}
use starkbank_backend_challe.Domain.Errors.{
  Result, ok, err, value_error, missing_provider_configuration, uncaught,
}
use starkbank_backend_challe.Domain.Models.{ProviderWebhook, WebhookInspection}
use starkbank_backend_challe.Provider.Sdk.{StarkBankClient}
use starkbank_backend_challe.Provider.Subscriptions.{inspect_webhooks, ensure_webhook}
use starkbank_backend_challe.Provider.Transfers.{create_invoice, find_invoice}
use starkbank_backend_challe.Service.{Action, pure, raise, ◌>>=◌, Call}
use starkbank_backend_challe.Smoke.{SmokeBatchResult, SmokeEnv, run}
use starkbank_backend_challe.Commands.{webhook_url}

-- What `setup-webhook` prints; without stale webhooks it leaves out the replaced ones.
pub record WebhookSetup : Type 0 where
  pub webhook_id : String
  pub url : String
  pub replaced_webhook_ids : List String

pub record SmokeInvoice : Type 0 where
  pub invoice_id : String
  pub tag : String
  pub reused : Bool

pub record SmokeBatch : Type 0 where
  pub count : ℕ
  pub reused : ℕ
  pub invoice_ids : List String
  pub reference : String

unfoldable pub webhook_setup : WebhookInspection → ProviderWebhook → WebhookSetup
webhook_setup before webhook = record {
  webhook_id = webhook.id;
  url = webhook.url;
  replaced_webhook_ids = map (λ stale. stale.id) before.stale;
}

-- `MissingProviderConfigurationError` of the namespace is a refused option.
unfoldable pub namespace_option : Settings → Result String
namespace_option settings = elim (smoke_namespace settings) [
  | ok namespace ↦ ok namespace
  | err (missing_provider_configuration _) ↦ err (value_error "COMPOSE_PROJECT_NAME")
  | err e ↦ err e
]

-- The ranges of `amount_cents` and of `count`
unfoldable pub is_smoke_amount : ℕ → Bool
is_smoke_amount amount = leb 1000 amount && leb amount 100000

unfoldable pub is_smoke_count : ℕ → Bool
is_smoke_count count = leb 1 count && leb count 12

-- `result.invoices[0]`
unfoldable pub first_invoice : SmokeBatchResult → Result SmokeInvoice
first_invoice result = elim result.invoices [
  | [] ↦ err (uncaught "IndexError")
  | invoice ∷ _ ↦
      ok (record { invoice_id = invoice.id; tag = invoice.tag; reused = eqb result.reused 1 })
]

module _ {W Bytes Object : Type 0} (client : StarkBankClient W Bytes Object) where
  unfoldable pub ensure_inspected_url : String → Result WebhookInspection → Call W WebhookSetup
  ensure_inspected_url url (err e) w = (err e, w)
  ensure_inspected_url url (ok before) w =
      let (ensured, w') = ensure_webhook client url w in
      elim ensured [ ok webhook ↦ (ok (webhook_setup before webhook), w') | err e ↦ (err e, w') ]

  unfoldable pub setup_url : Result String → Call W WebhookSetup
  setup_url (err e) w = (err e, w)
  setup_url (ok url) w =
      let (before, w') = inspect_webhooks client url w in ensure_inspected_url url before w'

  -- `setup-webhook`
  unfoldable pub setup_webhook : Settings → Call W WebhookSetup
  setup_webhook settings = setup_url (webhook_url settings)

  -- The service's environment, with the client as its provider.
  unfoldable pub smoke_env : SmokeEnv W → SmokeEnv W
  smoke_env env = record env {
    create_invoice = create_invoice client;
    find_invoice = find_invoice client;
  }

  unfoldable pub run_in : SmokeEnv W → Result String → String → ℕ → ℕ → Action W SmokeBatchResult
  run_in env (err e) reference count amount = raise e
  run_in env (ok namespace) reference count amount =
      run (smoke_env env) namespace reference count amount

  -- The service's run behind the confirmation of the sandbox.
  unfoldable pub confirmed_run :
      Settings → Bool → SmokeEnv W → String → ℕ → ℕ → Action W SmokeBatchResult
  confirmed_run settings confirm_sandbox env reference count amount =
      if not settings.starkbank_sandbox_live_enabled || not confirm_sandbox
      then raise (value_error "sandbox confirmation")
      else run_in env (namespace_option settings) reference count amount

  unfoldable pub or_refused : {A : Type 0} → Bool → Action W A → Action W A
  or_refused true command = command
  or_refused false command = raise (value_error "range")

  unfoldable pub returned : {A : Type 0} → Result A → Action W A
  returned (ok a) = pure a
  returned (err e) = raise e

  -- `smoke-invoice`
  unfoldable pub smoke_invoice : Settings → Bool → SmokeEnv W → String → ℕ → Action W SmokeInvoice
  smoke_invoice settings confirm_sandbox env reference amount =
      or_refused (is_smoke_amount amount) (
        confirmed_run settings confirm_sandbox env reference 1 amount
        >>= (λ result. returned (first_invoice result)))

  -- `smoke-batch`
  unfoldable pub smoke_batch : Settings → Bool → SmokeEnv W → String → ℕ → ℕ → Action W SmokeBatch
  smoke_batch settings confirm_sandbox env reference count amount =
      or_refused (is_smoke_amount amount && is_smoke_count count) (
        confirmed_run settings confirm_sandbox env reference count amount >>= (λ result.
          pure (record {
            count = length result.invoices;
            reused = result.reused;
            invoice_ids = map (λ invoice. invoice.id) result.invoices;
            reference = reference;
          })))
