-- ===== src/Provider/Sdk.antt =====
-- infrastructure/starkbank_client.py: what the client calls of the SDK and of pydantic, which are
-- third-party code, and how it turns their errors into the program's.
use starkbank_backend_challe.Base.{ℕ, Bool, true, false, ◌&&◌, Option, List, String, if◌then◌else◌}
use starkbank_backend_challe.Base.Int.{ℤ}
use starkbank_backend_challe.Domain.Errors.{
  ProviderError, transient, unknown_outcome, permanent, Result, err, provider,
  live_operations_disabled,
}
use starkbank_backend_challe.Domain.Time.{Datetime}
use starkbank_backend_challe.Service.{Call}

-- The classes of `starkbank.error`, and pydantic's ValidationError. `other_stark_error` is any other
-- StarkError.
pub data SdkError : Type 0 where
  input_errors internal_server unknown_error invalid_signature other_stark_error : SdkError
  validation_error : SdkError

-- `isinstance(error, (InternalServerError, UnknownError))`
abbrev pub is_outage : SdkError → Bool
is_outage internal_server = true
is_outage unknown_error = true
is_outage _ = false

-- `isinstance(error, (InternalServerError, UnknownError, ValidationError))`
abbrev pub is_inconclusive : SdkError → Bool
is_inconclusive internal_server = true
is_inconclusive unknown_error = true
is_inconclusive validation_error = true
is_inconclusive _ = false

abbrev pub is_input_errors : SdkError → Bool
is_input_errors input_errors = true
is_input_errors _ = false

pub data Answer (A : Type 0) : Type 0 where
  answered : A → Answer A
  failed : SdkError → Answer A

-- What a query yields: objects one after another, until the end or an error.
pub data Items (A : Type 0) : Type 0 where
  end : Items A
  broken : SdkError → Items A
  item : A → Items A → Items A

pub record InvoiceRequest : Type 0 where
  pub amount : ℕ
  pub tax_id : String
  pub name : String
  pub tags : List String

pub record TransferRequest : Type 0 where
  pub amount : ℤ
  pub name : String
  pub tax_id : String
  pub bank_code : String
  pub branch_code : String
  pub account_number : String
  pub account_type : String
  pub external_id : String
  pub tags : List String
  pub description : String

pub record SdkTransfer : Type 0 where
  pub id : String
  pub external_id : String
  pub status : String

pub record SdkTransferLifecycle : Type 0 where
  pub id : String
  pub external_id : String
  pub status : String
  pub updated : Datetime

pub record SdkEvent (Object : Type 0) : Type 0 where
  pub id : String
  pub subscription : String
  pub workspace_id : String
  pub log : Object

pub record SdkCreditedInvoice : Type 0 where
  pub id : String
  pub amount : ℤ
  pub fee : ℤ
  pub tags : List String

pub record SdkWebhook : Type 0 where
  pub id : String
  pub url : String
  pub subscriptions : List String

-- The SDK's functions, each of which changes the world, and `model_validate` of each of the client's
-- pydantic models, `none` where it raises. A function that a release of the SDK may lack is an
-- option.
pub record Sdk (W Bytes Object : Type 0) : Type 0 where
  pub invoice_create : List InvoiceRequest → W → Answer (List Object) × W
  pub invoice_query : (limit : ℕ) → List String → W → Items Object × W
  pub transfer_create : List TransferRequest → W → Answer (List Object) × W
  pub transfer_query : (limit : ℕ) → List String → W → Items Object × W
  pub event_parse : String → (signature : String) → W → Answer Object × W
  pub event_query : Option ((after : String) → (before : Option String) → W → Items Object × W)
  pub event_delete : Option (String → W → Answer (Unit {0}) × W)
  pub webhook_create : (url : String) → List String → W → Answer Object × W
  pub webhook_query : W → Items Object × W
  pub webhook_delete : Option (String → W → Answer (Unit {0}) × W)
  pub decode : Bytes → Option String
  pub utc_text : Datetime → String
  pub sdk_invoice : Object → Option String
  pub sdk_transfer : Object → Option SdkTransfer
  pub sdk_lifecycle : Object → Option SdkTransferLifecycle
  pub sdk_event : Object → Option (SdkEvent Object)
  pub sdk_log : Object → Option String
  pub sdk_transfer_log : Object → Option Object
  pub sdk_credited_log : Object → Option Object
  pub sdk_credited_invoice : Object → Option SdkCreditedInvoice
  pub sdk_webhook : Object → Option SdkWebhook

pub record StarkBankClient (W Bytes Object : Type 0) : Type 0 where
  pub sdk : Sdk W Bytes Object
  pub expected_workspace_id : Option String
  pub live_operations_enabled : Bool

-- `_raise_provider`: the error that it raises.
unfoldable pub provider_error_of : SdkError → String → (unknown : Bool) → ProviderError
provider_error_of error operation unknown =
    if unknown && is_inconclusive error
    then unknown_outcome operation
    else if is_outage error
    then transient operation
    else permanent operation

unfoldable pub raise_provider : {A : Type 0} → SdkError → String → (unknown : Bool) → Result A
raise_provider error operation unknown = err (provider (provider_error_of error operation unknown))

-- `_require_live` in front of a call.
unfoldable pub require_live :
    {W Bytes Object A : Type 0} → StarkBankClient W Bytes Object → String → Call W A → Call W A
require_live client operation next w =
    if client.live_operations_enabled then next w else (err (live_operations_disabled operation), w)
