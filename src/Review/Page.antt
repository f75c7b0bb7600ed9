-- ===== src/Review/Page.antt =====
-- persistence/review_store.py: `ReviewQuery`, `ReviewPage`, `_page` and `_mapping_page`.
use starkbank_backend_challe.Base.{
  ℕ, zero, suc, ◌-◌, Option, none, some, List, [], ◌∷◌, map, String, length, take, ltb,
  if◌then◌else◌, select_where,
}
use starkbank_backend_challe.Base.Keyset.{NewestFirst, is_older}
use starkbank_backend_challe.Domain.Errors.{Result, ok, err}
use starkbank_backend_challe.Review.Cursor.{Codec, cursor, decode_cursor}

abbrev pub default_limit : ℕ
default_limit = 25

abbrev pub max_limit : ℕ
max_limit = 100

-- The two instants are compared in UTC.
pub record ReviewQuery : Type 0 where
  pub limit : ℕ
  pub cursor : Option String
  pub trial_id : Option String
  pub statuses : List String
  pub from_at : Option ℕ
  pub to_at : Option ℕ
  pub batch_id : Option String
  pub slot_index : Option ℕ
  pub credit_status : Option String
  pub provider_invoice_id : Option String
  pub tag : Option String
  pub dispatch_status : Option String
  pub provider_status : Option String
  pub provider_log_type : Option String
  pub invoice_id : Option String
  pub provider_transfer_id : Option String
  pub external_id : Option String
  pub subscription : Option String
  pub log_type : Option String
  pub outcome : Option String
  pub resource_id : Option String

-- `ReviewQuery()`
abbrev pub empty_query : ReviewQuery
empty_query = record {
  limit = default_limit;
  cursor = none;
  trial_id = none;
  statuses = [];
  from_at = none;
  to_at = none;
  batch_id = none;
  slot_index = none;
  credit_status = none;
  provider_invoice_id = none;
  tag = none;
  dispatch_status = none;
  provider_status = none;
  provider_log_type = none;
  invoice_id = none;
  provider_transfer_id = none;
  external_id = none;
  subscription = none;
  log_type = none;
  outcome = none;
  resource_id = none;
}

pub record ReviewPage (B : Type 0) : Type 0 where
  pub items : List B
  pub next_cursor : Option String
  pub total : ℕ

-- `timestamps[n]`
abbrev pub position_at : ℕ → List (ℕ × String) → Option (ℕ × String)
position_at n [] = none
position_at zero (t ∷ ts) = some t
position_at (suc n) (t ∷ ts) = position_at n ts

unfoldable pub cursor_of : Codec → Option (ℕ × String) → Option String
cursor_of codec none = none
cursor_of codec (some (at, id)) = some (cursor codec at id)

-- `_page`. Where there is more, `timestamps` has an entry at `limit - 1`; with a limit of 0 the index
-- -1 is that of the only entry.
unfoldable pub page : {B : Type 0} → Codec → List B → ℕ → ℕ → List (ℕ × String) → ReviewPage B
page codec rows total limit timestamps = record {
  items = take limit rows;
  next_cursor =
      if ltb limit (length rows)
      then cursor_of codec (position_at (limit - 1) timestamps)
      else none;
  total = total;
}

module _ (codec : Codec) (sql : NewestFirst) {A B : Type 0} (timestamp : A → ℕ)
    (identifier : A → String) (mapper : A → B) where
  -- The statement's WHERE for a cursor.
  unfoldable pub after_cursor : Option (ℕ × String) → List A → List A
  after_cursor none rows = rows
  after_cursor (some (at, id)) rows =
      select_where (λ row. is_older sql.collation (timestamp row) (identifier row) at id) rows

  -- The statement's answer, ordered and cut off one row after the limit, as a page.
  unfoldable pub fetch_page : List A → ℕ → ℕ → Option (ℕ × String) → ReviewPage B
  fetch_page rows total limit decoded =
      let fetched =
        take (suc limit) (sql.sort A timestamp identifier (after_cursor decoded rows)) in
      page codec (map mapper fetched) total limit
        (map (λ row. (timestamp row, identifier row)) fetched)

  -- `_mapping_page` over the rows that the statement selects and their number by the count.
  unfoldable pub mapping_page : List A → ℕ → ℕ → Option String → Result (ReviewPage B)
  mapping_page rows total limit value = elim (decode_cursor codec value) [
    | err e ↦ err e
    | ok decoded ↦ ok (fetch_page rows total limit decoded)
  ]
