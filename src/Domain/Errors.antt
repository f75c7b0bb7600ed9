-- ===== src/Domain/Errors.antt =====
-- domain/errors.py and the exceptions of domain/provider.py, with the exceptions of the database
-- that the stores meet.
use starkbank_backend_challe.Base.{ℕ, Bool, true, false, ◌≡◌, refl, ◌⊎◌, inl, inr, List, String}
use starkbank_backend_challe.Base.Int.{ℤ}

-- The classes below `ProviderError`, each with its `operation`.
pub data ProviderError : Type 0 where
  provider_error transient timeout unknown_outcome permanent invalid_webhook :
      String → ProviderError
  unexpected_workspace :
      (operation workspace_id event_id subscription log_type : String) → ProviderError

-- `isinstance(error, ProviderTimeoutError)`: an unknown outcome is a timeout.
abbrev pub is_timeout : ProviderError → Bool
is_timeout (timeout _) = true
is_timeout (unknown_outcome _) = true
is_timeout _ = false

-- `isinstance(error, ProviderTransientError)`: a timeout is transient.
abbrev pub is_transient : ProviderError → Bool
is_transient (transient _) = true
is_transient (timeout _) = true
is_transient (unknown_outcome _) = true
is_transient _ = false

-- `isinstance(error, ProviderPermanentError)`
abbrev pub is_permanent : ProviderError → Bool
is_permanent (permanent _) = true
is_permanent _ = false

-- `type(error).__name__`
abbrev pub class_name : ProviderError → String
class_name (provider_error _) = "ProviderError"
class_name (transient _) = "ProviderTransientError"
class_name (timeout _) = "ProviderTimeoutError"
class_name (unknown_outcome _) = "ProviderUnknownOutcomeError"
class_name (permanent _) = "ProviderPermanentError"
class_name (invalid_webhook _) = "InvalidWebhookError"
class_name (unexpected_workspace _ _ _ _ _) = "UnexpectedWorkspaceError"

-- Everything that a modelled call can raise.
pub data Error : Type 0 where
  invalid_amount : (amount fee : ℤ) → Error
  invalid_batch_count : List ℕ → Error
  invalid_start_time : Error
  invoice_ownership_conflict : (tag provider_invoice_id : String) → Error
  live_operations_disabled : String → Error
  provider : ProviderError → Error
  -- sqlalchemy.exc: a constraint refuses a write; `one()` or `scalar_one()` finds no row
  integrity no_result_found : Error
  -- ValueError, with its message
  value_error : String → Error
  missing_provider_configuration : (missing_fields : List String) → Error
  -- an exception of the SDK that no handler names, with its class
  uncaught : String → Error

pub data Result {ℓ} (A : Type ℓ) : Type ℓ where
  ok : A → Result A
  err : Error → Result A

-- A class that is caught as a timeout is caught as transient too.
pub is_timeout-is_transient : (e : ProviderError) → is_timeout e ≡ true → is_transient e ≡ true
is_timeout-is_transient (timeout _) h = refl
is_timeout-is_transient (unknown_outcome _) h = refl
is_timeout-is_transient _ h = cc

pub Result-cases {ℓ} :
    {A : Type ℓ} (r : Result A) → ((a : A) × (r ≡ ok a)) ⊎ ((e : Error) × (r ≡ err e))
Result-cases (ok a) = inl (a, refl)
Result-cases (err e) = inr (e, refl)
