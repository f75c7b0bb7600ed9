-- ===== src/Review/Params.antt =====
-- http/review.py: `ReviewQueryParams`. Pydantic reads the integers and the datetimes of the query
-- string; the ranges that the model states for them are tested here.
use starkbank_backend_challe.Base.{
  ℕ, ◌≤◌, ◌≡◌, ◌&&◌, Option, none, some, List, String, arith, leb, if◌then◌else◌,
}
use starkbank_backend_challe.Base.Int.{ℤ, pos, negsuc}
use starkbank_backend_challe.Domain.Time.{Datetime, as_utc}
use starkbank_backend_challe.Review.Page.{ReviewQuery, max_limit}

abbrev pub max_slot_index : ℕ
max_slot_index = 7

pub record ReviewQueryParams : Type 0 where
  pub limit : ℤ
  pub cursor : Option String
  pub trial_id : Option String
  pub status : List String
  pub from_at : Option Datetime
  pub to_at : Option Datetime
  pub batch_id : Option String
  pub slot_index : Option ℤ
  pub credit_status : Option String
  pub provider_invoice_id : Option String
  pub tag : Option String
  pub dispatch_status : Option String
  pub provider_status : Option String
  pub provider_log_type : Option String
  pub invoice_id : Option String
  pub provider_transfer_id : Option String
  pub external_id : Option String
  pub subscription : Option String
  pub log_type : Option String
  pub outcome : Option String
  pub resource_id : Option String

-- `Field(ge=…, le=…)`, and the number in that range
unfoldable pub in_range : ℕ → ℕ → ℤ → Option ℕ
in_range low high (negsuc n) = none
in_range low high (pos n) = if leb low n && leb n high then some n else none

-- The same, of a field that may be missing.
unfoldable pub optional_in_range : ℕ → ℕ → Option ℤ → Option (Option ℕ)
optional_in_range low high none = some none
optional_in_range low high (some value) = elim (in_range low high value) [
  | none ↦ none
  | some n ↦ some (some n)
]

unfoldable pub utc_or_none : Option Datetime → Option ℕ
utc_or_none none = none
utc_or_none (some at) = some (as_utc at)

-- `to_store_query`, with the limit and the slot index that have been tested.
unfoldable pub to_store_query : ReviewQueryParams → ℕ → Option ℕ → ReviewQuery
to_store_query params limit slot_index = record {
  limit = limit;
  cursor = params.cursor;
  trial_id = params.trial_id;
  statuses = params.status;
  from_at = utc_or_none params.from_at;
  to_at = utc_or_none params.to_at;
  batch_id = params.batch_id;
  slot_index = slot_index;
  credit_status = params.credit_status;
  provider_invoice_id = params.provider_invoice_id;
  tag = params.tag;
  dispatch_status = params.dispatch_status;
  provider_status = params.provider_status;
  provider_log_type = params.provider_log_type;
  invoice_id = params.invoice_id;
  provider_transfer_id = params.provider_transfer_id;
  external_id = params.external_id;
  subscription = params.subscription;
  log_type = params.log_type;
  outcome = params.outcome;
  resource_id = params.resource_id;
}

-- `model_validate(…).to_store_query()`, `none` where it raises ValidationError
unfoldable pub validated_query : ReviewQueryParams → Option ReviewQuery
validated_query params = elim (in_range 1 max_limit params.limit) [
  | none ↦ none
  | some limit ↦ elim (optional_in_range 0 max_slot_index params.slot_index) [
    | none ↦ none
    | some slot_index ↦ some (to_store_query params limit slot_index)
  ]
]

in_range_bounds :
    (low high n : ℕ) (value : ℤ) → in_range low high value ≡ some n → (low ≤ n) × (n ≤ high)
unfolding in_range
in_range_bounds low high n (negsuc m) h = ground (arith, h)
in_range_bounds low high n (pos m) h = ground (arith, h)
