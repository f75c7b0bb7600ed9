-- ===== src/Provider/Failures.antt =====
-- infrastructure/starkbank_client.py: the errors of the client, and what they say of the provider.
use starkbank_backend_challe.Base.{
  Bool, true, false, ◌||◌, ◌≡◌, refl, ap, sym, ◌∙◌, ◌⊎◌, inl, inr, Option, none, some, List, [],
  ◌∷◌, String, arith,
}
use starkbank_backend_challe.Domain.Errors.{
  ProviderError, Error, Result, ok, err, provider, unknown_outcome, is_transient, is_permanent,
}
use starkbank_backend_challe.Domain.Models.{InvoiceDraft, TransferCommand, ProviderTransfer}
use starkbank_backend_challe.Service.{Call}
use starkbank_backend_challe.Provider.Sdk.{
  SdkError, is_outage, Answer, answered, failed, Items, end, broken, item, StarkBankClient,
  provider_error_of, raise_provider, require_live,
}
use starkbank_backend_challe.Provider.Transfers.{
  created_invoice, create_invoice, found_invoice, find_invoice, find_in, find_transfer,
  refused_transfer, created_transfer, create_transfer, ensure_after, ensure_transfer,
  transfer_request,
}

-- `isinstance(error, ProviderUnknownOutcomeError)`
abbrev pub is_unknown_outcome : ProviderError → Bool
is_unknown_outcome (unknown_outcome _) = true
is_unknown_outcome _ = false

-- An error that the worker and the trial service catch.
abbrev pub is_caught : Error → Bool
is_caught (provider e) = is_transient e || is_permanent e
is_caught _ = false

-- A call that returns, or raises such an error.
abbrev pub raises_caught : {A : Type 0} → Result A → Bool
raises_caught (ok _) = true
raises_caught (err e) = is_caught e

module _ {W Bytes Object : Type 0} (client : StarkBankClient W Bytes Object) where
  pub require_live_on :
      {A : Type 0} (operation : String) (next : Call W A) (w : W)
      → client.live_operations_enabled ≡ true
      → require_live client operation next w ≡ next w
  unfolding require_live
  require_live_on operation next w live = ground (arith, live)

  find_in-is_caught :
      (id : String) (items : Items Object) → raises_caught (find_in client id items) ≡ true
  unfolding find_in raise_provider provider_error_of
  find_in-is_caught id end = refl
  find_in-is_caught id (broken error) = ground arith
  find_in-is_caught id (item object rest) = ground (arith, find_in-is_caught id rest)

  created_transfer-is_caught :
      (command : TransferCommand) (answer : Answer (List Object)) (w : W)
      → raises_caught (created_transfer client command answer w).0 ≡ true
  unfolding created_transfer raise_provider provider_error_of find_transfer refused_transfer
  created_transfer-is_caught command (answered []) w = refl
  created_transfer-is_caught command (answered (object ∷ _)) w = ground arith
  created_transfer-is_caught command (failed error) w = ground (
    arith,
    find_in-is_caught command.external_id (client.sdk.transfer_query 10 (command.tag ∷ []) w).0,
  )

  created_invoice-is_caught :
      (draft : InvoiceDraft) (answer : Answer (List Object))
      → raises_caught (created_invoice client draft answer) ≡ true
  unfolding created_invoice raise_provider provider_error_of
  created_invoice-is_caught draft (answered []) = refl
  created_invoice-is_caught draft (answered (object ∷ _)) = ground arith
  created_invoice-is_caught draft (failed error) = ground arith

  found_invoice-is_caught :
      (tag : String) (items : Items Object) → raises_caught (found_invoice client tag items) ≡ true
  unfolding found_invoice raise_provider provider_error_of
  found_invoice-is_caught tag end = refl
  found_invoice-is_caught tag (broken error) = ground arith
  found_invoice-is_caught tag (item object _) = ground arith

  ensure_after-is_caught :
      (command : TransferCommand) (found : Result (Option ProviderTransfer)) (w : W)
      → raises_caught found ≡ true
      → raises_caught (ensure_after client command found w).0 ≡ true
  unfolding ensure_after create_transfer
  ensure_after-is_caught command (err error) w h = h
  ensure_after-is_caught command (ok (some existing)) w h = refl
  ensure_after-is_caught command (ok none) w h = created_transfer-is_caught command _ _

  pub ensure_transfer-is_caught :
      (command : TransferCommand) (w : W)
      → client.live_operations_enabled ≡ true
      → raises_caught (ensure_transfer client command w).0 ≡ true
  unfolding ensure_transfer find_transfer
  ensure_transfer-is_caught command w live =
      ap (λ r. raises_caught r.0) (require_live_on "ensure_transfer" _ w live)
      ∙ ensure_after-is_caught command _ _ (find_in-is_caught command.external_id _)

  -- While live operations are enabled, `create_invoice`, `find_invoice`, `ensure_transfer` and
  -- `find_transfer` return or raise a transient or a permanent provider error, whatever the SDK
  -- answers: the two classes, with their subclasses, that the worker and the trial service catch.
  pub client-is_caught :
      (draft : InvoiceDraft) (command : TransferCommand) (w : W)
      → client.live_operations_enabled ≡ true
      → (raises_caught (create_invoice client draft w).0 ≡ true)
        × (raises_caught (find_invoice client draft.tag w).0 ≡ true)
        × (raises_caught (ensure_transfer client command w).0 ≡ true)
        × (raises_caught (find_transfer client command w).0 ≡ true)
  unfolding create_invoice find_invoice find_transfer
  client-is_caught draft command w live = (
    ap (λ r. raises_caught r.0) (require_live_on "create_invoice" _ w live)
        ∙ created_invoice-is_caught draft _,
    found_invoice-is_caught draft.tag _,
    ensure_transfer-is_caught command w live,
    find_in-is_caught command.external_id _,
  )

  -- The provider refused the creation that was asked for in this world.
  abbrev pub IsRefused : TransferCommand → W → Type 0
  IsRefused command w =
      (error : SdkError) × ((client.sdk.transfer_create (transfer_request command ∷ []) w).0
        ≡ failed error)
      × (is_outage error ≡ false)

  create_transfer-IsRefused :
      (command : TransferCommand) (w : W) (p : ProviderError)
      → (create_transfer client command w).0 ≡ err (provider p)
      → is_unknown_outcome p ≡ false
      → IsRefused command w
  unfolding create_transfer created_transfer raise_provider provider_error_of
  create_transfer-IsRefused command w p h known =
      refusal (client.sdk.transfer_create (transfer_request command ∷ []) w) refl h
    where
      refusal :
          (answer : Answer (List Object) × W)
          → client.sdk.transfer_create (transfer_request command ∷ []) w ≡ answer
          → (created_transfer client command answer.0 answer.1).0 ≡ err (provider p)
          → IsRefused command w
      refusal (answered [], w') e k = ground (arith, k, known)
      refusal (answered (object ∷ _), w') e k = ground (arith, k, known)
      refusal (failed error, w') e k = (error, ap (λ a. a.0) e, ground (arith, k, known))

  -- While live operations are enabled, where `ensure_transfer` raises an error of the provider that
  -- is not an unknown outcome, either the lookup before the creation had raised that same error, or
  -- the SDK answered the creation, which followed that lookup, with an error that is neither
  -- InternalServerError nor UnknownError.
  pub ensure_transfer-IsRefused :
      (command : TransferCommand) (w : W) (p : ProviderError)
      → client.live_operations_enabled ≡ true
      → (ensure_transfer client command w).0 ≡ err (provider p)
      → is_unknown_outcome p ≡ false
      → ((find_transfer client command w).0 ≡ err (provider p))
        ⊎ IsRefused command (find_transfer client command w).1
  unfolding ensure_transfer ensure_after
  ensure_transfer-IsRefused command w p live h known =
      first (find_transfer client command w) refl
        (sym (ap (λ r. r.0) (require_live_on "ensure_transfer" _ w live)) ∙ h)
    where
      first :
          (found : Result (Option ProviderTransfer) × W)
          → find_transfer client command w ≡ found
          → (ensure_after client command found.0 found.1).0 ≡ err (provider p)
          → (found.0 ≡ err (provider p)) ⊎ IsRefused command found.1
      first (err error, w') e k = inl (ground (arith, k))
      first (ok (some existing), w') e k = ground (arith, k)
      first (ok none, w') e k = inr (create_transfer-IsRefused command w' p k known)
