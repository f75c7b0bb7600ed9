-- ===== src/Provider/Inspection.antt =====
-- infrastructure/starkbank_client.py: which webhook is kept, and which are replaced.
use mathlib.Core.List.Perm
use starkbank_backend_challe.Base.{
  ◌≡◌, refl, Bool, true, false, Option, none, some, List, [], ◌∷◌, String, ◌==◌, Perm, inl, inr,
  Bool-cases, exists_where, select_where, arith,
}
use starkbank_backend_challe.Domain.Models.{ProviderWebhook, WebhookInspection}
use starkbank_backend_challe.Provider.Subscriptions.{has_subscriptions, split_active, inspection_of}

-- The webhook that is kept, in front of those that are not.
abbrev pub all_of : WebhookInspection → List ProviderWebhook
all_of inspection = elim inspection.active [
  | none ↦ inspection.stale
  | some active ↦ active ∷ inspection.stale
]

-- Whether the kept webhook has the subscriptions; true where none is kept.
abbrev pub active_fits : Option ProviderWebhook → Bool
active_fits none = true
active_fits (some active) = has_subscriptions active

abbrev pub is_some : Option ProviderWebhook → Bool
is_some none = false
is_some (some active) = true

all_of-perm :
    (webhook : ProviderWebhook) (matching : List ProviderWebhook) (active : Option ProviderWebhook)
    (stale : List ProviderWebhook)
    → Perm (all_of (record { active = active; stale = stale })) matching
    → Perm (all_of (record { active = active; stale = webhook ∷ stale })) (webhook ∷ matching)
all_of-perm webhook matching none stale h = Perm.cons webhook h
all_of-perm webhook matching (some active) stale h =
    Perm.trans (Perm.swap webhook active stale) (Perm.cons webhook h)

split_active-perm :
    (matching : List ProviderWebhook) → Perm (all_of (split_active matching)) matching
unfolding split_active
split_active-perm [] = Perm.nil
split_active-perm (webhook ∷ matching) = elim (Bool-cases (has_subscriptions webhook)) [
  | inl e ↦ rw e (Perm.refl (webhook ∷ matching))
  | inr e ↦ rw e (
      all_of-perm webhook matching (split_active matching).active (split_active matching).stale
        (split_active-perm matching))
]

split_active_fits :
    (matching : List ProviderWebhook) → active_fits (split_active matching).active ≡ true
unfolding split_active
split_active_fits [] = refl
split_active_fits (webhook ∷ matching) = ground (arith, split_active_fits matching)

split_active-exists_where :
    (matching : List ProviderWebhook)
    → is_some (split_active matching).active ≡ exists_where has_subscriptions matching
unfolding split_active
split_active-exists_where [] = refl
split_active-exists_where (webhook ∷ matching) = ground (arith, split_active-exists_where matching)

-- Of the webhooks that the provider lists, the inspection of a URL keeps one exactly if some webhook
-- of that URL has the two subscriptions and no other; the kept one does; and the kept one and the
-- stale ones together are the webhooks of that URL, each as often as it is listed. So one of two
-- good webhooks is stale, and no webhook of another URL is.
pub inspection_of_url :
    (url : String) (webhooks : List ProviderWebhook)
    → (is_some (inspection_of url webhooks).active
        ≡ exists_where has_subscriptions (select_where (λ webhook. webhook.url == url) webhooks))
      × (active_fits (inspection_of url webhooks).active ≡ true)
      × Perm
          (all_of (inspection_of url webhooks))
          (select_where (λ webhook. webhook.url == url) webhooks)
unfolding inspection_of
inspection_of_url url webhooks =
    (split_active-exists_where _, split_active_fits _, split_active-perm _)
