-- ===== src/Provider/Subscriptions.antt =====
-- infrastructure/starkbank_client.py: webhook subscriptions.
use starkbank_backend_challe.Base.{
  Bool, true, false, ◌&&◌, none, some, List, [], ◌∷◌, String, ◌==◌, exists_where, every,
  select_where, if◌then◌else◌,
}
use starkbank_backend_challe.Domain.Errors.{Result, ok, err, provider, unknown_outcome}
use starkbank_backend_challe.Domain.Models.{ProviderWebhook, WebhookInspection}
use starkbank_backend_challe.Service.{Call}
use starkbank_backend_challe.Provider.Sdk.{
  validation_error, Answer, answered, failed, Items, end, broken, item, SdkWebhook, StarkBankClient,
  raise_provider, require_live,
}
use starkbank_backend_challe.Provider.Events.{delete_by}

abbrev pub webhook_subscriptions : List String
webhook_subscriptions = "invoice" ∷ "transfer" ∷ []

-- `_provider_webhook`
unfoldable pub provider_webhook : SdkWebhook → ProviderWebhook
provider_webhook webhook = record {
  id = webhook.id;
  url = webhook.url;
  subscriptions = webhook.subscriptions;
}

module _ {W Bytes Object : Type 0} (client : StarkBankClient W Bytes Object) where
  unfoldable pub delete_webhook : String → Call W (Unit {0})
  delete_webhook webhook_id =
      require_live client "delete_webhook"
        (delete_by client "delete_webhook" client.sdk.webhook_delete webhook_id)

  unfoldable pub listed_webhooks : Items Object → Result (List ProviderWebhook)
  listed_webhooks end = ok []
  listed_webhooks (broken error) = raise_provider error "list_webhooks" false
  listed_webhooks (item object rest) =
      let later = listed_webhooks rest in
      elim (client.sdk.sdk_webhook object) [
        | none ↦ raise_provider validation_error "list_webhooks" false
        | some webhook ↦ elim later [
          | ok webhooks ↦ ok (provider_webhook webhook ∷ webhooks)
          | err e ↦ err e
        ]
      ]

  unfoldable pub list_webhooks : Call W (List ProviderWebhook)
  list_webhooks w = let (items, w') = client.sdk.webhook_query w in (listed_webhooks items, w')

-- `set(webhook.subscriptions) == set(WEBHOOK_SUBSCRIPTIONS)`
unfoldable pub has_subscriptions : ProviderWebhook → Bool
has_subscriptions webhook =
    every (λ s. exists_where (λ t. s == t) webhook_subscriptions) webhook.subscriptions
    && every (λ t. exists_where (λ s. s == t) webhook.subscriptions) webhook_subscriptions

-- The first of the matching webhooks with the subscriptions, and the others.
unfoldable pub split_active : List ProviderWebhook → WebhookInspection
split_active [] = record { active = none; stale = [] }
split_active (webhook ∷ matching) =
    let rest = split_active matching in
    if has_subscriptions webhook
    then record { active = some webhook; stale = matching }
    else record { active = rest.active; stale = webhook ∷ rest.stale }

unfoldable pub inspection_of : String → List ProviderWebhook → WebhookInspection
inspection_of url webhooks = split_active (select_where (λ webhook. webhook.url == url) webhooks)

unfoldable pub inspected : String → Result (List ProviderWebhook) → Result WebhookInspection
inspected url (ok webhooks) = ok (inspection_of url webhooks)
inspected url (err e) = err e

module _ {W Bytes Object : Type 0} (client : StarkBankClient W Bytes Object) where
  unfoldable pub inspect_webhooks : String → Call W WebhookInspection
  inspect_webhooks url w =
      let (webhooks, w') = list_webhooks client w in (inspected url webhooks, w')

  -- `inspection.active is not None and inspection.active.id == webhook.id`
  unfoldable pub confirmed : ProviderWebhook → Result WebhookInspection → Result ProviderWebhook
  confirmed webhook (err e) = err e
  confirmed webhook (ok inspection) = elim inspection.active [
    | none ↦ err (provider (unknown_outcome "create_webhook_unconfirmed"))
    | some active ↦
        if active.id == webhook.id
        then ok active
        else err (provider (unknown_outcome "create_webhook_unconfirmed"))
  ]

  unfoldable pub confirm_webhook : ProviderWebhook → String → Call W ProviderWebhook
  confirm_webhook webhook url w =
      let (inspection, w') = inspect_webhooks url w in (confirmed webhook inspection, w')

  unfoldable pub delete_all : List ProviderWebhook → Call W (Unit {0})
  delete_all [] w = (ok tt, w)
  delete_all (stale ∷ rest) w =
      let (answer, w') = delete_webhook client stale.id w in
      elim answer [ ok _ ↦ delete_all rest w' | err e ↦ (err e, w') ]

  unfoldable pub created_webhook : String → Answer Object → Call W ProviderWebhook
  created_webhook url (failed error) w = (raise_provider error "create_webhook" true, w)
  created_webhook url (answered object) w = elim (client.sdk.sdk_webhook object) [
    | none ↦ (raise_provider validation_error "create_webhook" true, w)
    | some webhook ↦ confirm_webhook (provider_webhook webhook) url w
  ]

  unfoldable pub create_webhook : String → Call W ProviderWebhook
  create_webhook url w =
      let (answer, w') = client.sdk.webhook_create url webhook_subscriptions w in
      created_webhook url answer w'

  unfoldable pub replace_stale : String → List ProviderWebhook → Call W ProviderWebhook
  replace_stale url stale w =
      let (answer, w') = delete_all stale w in
      elim answer [ ok _ ↦ create_webhook url w' | err e ↦ (err e, w') ]

  unfoldable pub ensure_inspected : String → Result WebhookInspection → Call W ProviderWebhook
  ensure_inspected url (err e) w = (err e, w)
  ensure_inspected url (ok inspection) w = elim inspection.active [
    | some active ↦ (ok active, w)
    | none ↦ replace_stale url inspection.stale w
  ]

  unfoldable pub ensure_webhook : String → Call W ProviderWebhook
  ensure_webhook url =
      require_live client "ensure_webhook"
        (λ w. let (inspection, w') = inspect_webhooks url w in ensure_inspected url inspection w')
