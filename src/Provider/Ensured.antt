-- ===== src/Provider/Ensured.antt =====
-- infrastructure/starkbank_client.py: what the webhook that `ensure_webhook` returns is known to be.
use starkbank_backend_challe.Base.{
  ◌≡◌, refl, sym, ap, ◌∙◌, subst, true, none, some, List, [], ◌∷◌, String, ◌==◌, inl, inr,
  Bool-cases, Option-cases, select_where, arith,
}
use starkbank_backend_challe.Domain.Errors.{Result, ok, err}
use starkbank_backend_challe.Domain.Models.{ProviderWebhook, WebhookInspection}
use starkbank_backend_challe.Service.{Call}
use starkbank_backend_challe.Provider.Sdk.{
  StarkBankClient, Answer, answered, failed, raise_provider, require_live,
}
use starkbank_backend_challe.Provider.Subscriptions.{
  has_subscriptions, split_active, inspection_of, inspected, list_webhooks, inspect_webhooks,
  confirmed, confirm_webhook, delete_all, created_webhook, create_webhook, replace_stale,
  ensure_inspected, ensure_webhook, provider_webhook,
}
use starkbank_backend_challe.Provider.Failures.{require_live_on}
use starkbank_backend_challe.Provider.Verified.{ok-injective}

-- The webhook delivers the two subscriptions, and no other, to the URL.
abbrev pub Serves : String → ProviderWebhook → Type 0
Serves url webhook = (has_subscriptions webhook ≡ true) × ((webhook.url == url) ≡ true)

abbrev ActiveServes : String → WebhookInspection → Type 0
ActiveServes url inspection =
    (webhook : ProviderWebhook) → inspection.active ≡ some webhook → Serves url webhook

some-injective : {A : Type 0} {a b : A} → some a ≡ some b → a ≡ b
some-injective {a = a} h = ap (λ o. elim o [ some x ↦ x | none ↦ a ]) h

split_active-Serves :
    (url : String) (webhooks : List ProviderWebhook)
    → ActiveServes url (split_active (select_where (λ webhook. webhook.url == url) webhooks))
unfolding split_active
split_active-Serves url [] webhook h = absurd (ground (arith, h))
split_active-Serves url (first ∷ webhooks) webhook h = elim (Bool-cases (first.url == url)) [
  | inr other ↦ split_active-Serves url webhooks webhook (rw other at h)
  | inl same ↦ elim (Bool-cases (has_subscriptions first)) [
    | inl complete ↦
        subst (Serves url) (some-injective (rw (same, split_active, complete) at h))
          (complete, same)
    | inr partial ↦ split_active-Serves url webhooks webhook (rw (same, split_active, partial) at h)
  ]
]

inspected-Serves :
    (url : String) (listed : Result (List ProviderWebhook)) (inspection : WebhookInspection)
    → inspected url listed ≡ ok inspection
    → ActiveServes url inspection
unfolding inspected inspection_of
inspected-Serves url (ok webhooks) inspection h =
    subst (ActiveServes url) (ok-injective h) (split_active-Serves url webhooks)
inspected-Serves url (err e) inspection h = absurd (ground (arith, h))

module _ {W Bytes Object : Type 0} (client : StarkBankClient W Bytes Object) where
  confirmed-Serves :
      (url : String) (webhook result : ProviderWebhook) (answer : Result WebhookInspection)
      → ((inspection : WebhookInspection) → answer ≡ ok inspection → ActiveServes url inspection)
      → confirmed client webhook answer ≡ ok result
      → Serves url result
  unfolding confirmed
  confirmed-Serves url webhook result (err e) seen h = absurd (ground (arith, h))
  confirmed-Serves url webhook result (ok inspection) seen h =
      elim (Option-cases inspection.active) [
        | inl e ↦ absurd (ground (arith, h, e))
        | inr (active, e) ↦ elim (Bool-cases (active.id == webhook.id)) [
          | inl same ↦
              subst (Serves url) (ok-injective (rw (confirmed, e, same) at h))
                (seen inspection refl active e)
          | inr other ↦ absurd (ground (arith, h, e, other))
        ]
      ]

  created_webhook-Serves :
      (url : String) (answer : Answer Object) (w : W) (result : ProviderWebhook)
      → (created_webhook client url answer w).0 ≡ ok result
      → Serves url result
  unfolding created_webhook raise_provider confirm_webhook inspect_webhooks
  created_webhook-Serves url (failed error) w result h = absurd (ground (arith, h))
  created_webhook-Serves url (answered object) w result h =
      elim (Option-cases (client.sdk.sdk_webhook object)) [
        | inl e ↦ absurd (ground (arith, h, e))
        | inr (webhook, e) ↦
            confirmed-Serves url (provider_webhook webhook) result
              (inspected url (list_webhooks client w).0)
              (inspected-Serves url (list_webhooks client w).0) (rw (created_webhook, e) at h)
      ]

  replace_stale-Serves :
      (url : String) (stale : List ProviderWebhook) (w : W) (result : ProviderWebhook)
      → (replace_stale client url stale w).0 ≡ ok result
      → Serves url result
  unfolding replace_stale create_webhook
  replace_stale-Serves url stale w result h = answer (delete_all client stale w) refl
    where
      answer :
          (deleted : Result (Unit {0}) × W)
          → delete_all client stale w ≡ deleted
          → Serves url result
      answer (ok _, w') e = created_webhook-Serves url _ _ result (rw (replace_stale, e) at h)
      answer (err error, w') e = absurd (ground (arith, h, e))

  ensure_inspected-Serves :
      (url : String) (answer : Result WebhookInspection) (w : W) (result : ProviderWebhook)
      → ((inspection : WebhookInspection) → answer ≡ ok inspection → ActiveServes url inspection)
      → (ensure_inspected client url answer w).0 ≡ ok result
      → Serves url result
  unfolding ensure_inspected
  ensure_inspected-Serves url (err e) w result seen h = absurd (ground (arith, h))
  ensure_inspected-Serves url (ok inspection) w result seen h =
      elim (Option-cases inspection.active) [
        | inl e ↦ replace_stale-Serves url inspection.stale w result (rw (ensure_inspected, e) at h)
        | inr (active, e) ↦
            subst (Serves url) (ok-injective (rw (ensure_inspected, e) at h))
              (seen inspection refl active e)
      ]

  -- A webhook that `ensure_webhook` returns, kept or created, has the URL that was asked for and the
  -- two subscriptions and no other.
  pub ensure_webhook-Serves :
      (url : String) (w : W) (webhook : ProviderWebhook)
      → (ensure_webhook client url w).0 ≡ ok webhook
      → Serves url webhook
  unfolding ensure_webhook require_live inspect_webhooks
  ensure_webhook-Serves url w webhook h =
      let inspect : Call W ProviderWebhook = λ w.
        ensure_inspected client url (inspect_webhooks client url w).0
          (inspect_webhooks client url w).1 in
      elim (Bool-cases client.live_operations_enabled) [
        | inr off ↦ absurd (ground (arith, h, off))
        | inl live ↦
            ensure_inspected-Serves url (inspected url (list_webhooks client w).0)
              (list_webhooks client w).1 webhook (inspected-Serves url (list_webhooks client w).0)
              (sym (ap (λ r. r.0) (require_live_on client "ensure_webhook" inspect w live)) ∙ h)
      ]
