-- ===== src/Review/Cursor.antt =====
-- persistence/review_store.py: `_iso`, `_cursor` and `_decode_cursor`. Base64, UTF-8 and the texts of a
-- datetime belong to Python's standard library and are parameters.
use Prim.Native.Char.{code}
use Prim.Native.Nat.{◌%◌}
use starkbank_backend_challe.Base.{
  ℕ, zero, suc, ◌+◌, ◌-◌, ◌≤◌, ◌≡◌, Bool, true, false, ◌&&◌, ◌||◌, Option, none, some, String, ◌<>◌,
  eqb, if◌then◌else◌,
}
use starkbank_backend_challe.Domain.Errors.{Result, ok, err, value_error}
use starkbank_backend_challe.Domain.Time.{Datetime, aware, as_utc}

-- The standard library: `value.isoformat()` of a datetime in UTC and `datetime.fromisoformat`, and
-- `urlsafe_b64encode(text.encode()).decode()` with `urlsafe_b64decode(text).decode()`. `none` stands
-- for ValueError, of which UnicodeDecodeError is a subclass.
pub record Codec : Type 0 where
  pub isoformat : ℕ → String
  pub fromisoformat : String → Option Datetime
  pub b64encode : String → String
  pub b64decode : String → Option String

-- `len`
unfoldable pub text_len : String → ℕ
text_len String.[] = 0
text_len (String.◌∷◌ c s) = suc (text_len s)

-- `"=" * n`
unfoldable pub equals_signs : ℕ → String
equals_signs zero = ""
equals_signs (suc n) = String.◌∷◌ "=" (equals_signs n)

abbrev is_empty : String → Bool
is_empty String.[] = true
is_empty (String.◌∷◌ c s) = false

-- `rstrip("=")`
unfoldable pub rstrip : String → String
rstrip String.[] = ""
rstrip (String.◌∷◌ c s) =
    let rest = rstrip s in if eqb (code c) b'=' && is_empty rest then "" else String.◌∷◌ c rest

unfoldable pub has_bar : String → Bool
has_bar String.[] = false
has_bar (String.◌∷◌ c s) = let rest = has_bar s in eqb (code c) b'|' || rest

-- `split("|", 1)`, unpacked into two
unfoldable pub split_bar : String → Option (String × String)
split_bar String.[] = none
split_bar (String.◌∷◌ c s) =
    let rest = split_bar s in
    if eqb (code c) b'|'
    then some ("", s)
    else elim rest [ none ↦ none | some (before, after) ↦ some (String.◌∷◌ c before, after) ]

-- `value + "=" * (-len(value) % 4)`
unfoldable pub padded : String → String
padded value = value <> equals_signs ((4 - text_len value % 4) % 4)

module _ (codec : Codec) where
  -- `_iso` of an instant
  unfoldable pub iso : ℕ → String
  iso at = codec.isoformat at

  -- `_iso`
  unfoldable pub iso_or_none : Option ℕ → Option String
  iso_or_none none = none
  iso_or_none (some at) = some (iso at)

  -- `_cursor`
  unfoldable pub cursor : ℕ → String → String
  cursor at id = rstrip (codec.b64encode (iso at <> ("|" <> id)))

  -- The text inside a cursor.
  unfoldable pub parse_position : String → Result (ℕ × String)
  parse_position decoded = elim (split_bar decoded) [
    | none ↦ err (value_error "invalid cursor")
    | some (timestamp, identifier) ↦ elim (codec.fromisoformat timestamp) [
      | none ↦ err (value_error "invalid cursor")
      | some parsed ↦ ok (as_utc parsed, identifier)
    ]
  ]

  -- `_decode_cursor`
  unfoldable pub decode_cursor : Option String → Result (Option (ℕ × String))
  decode_cursor none = ok none
  decode_cursor (some value) = elim (codec.b64decode (padded value)) [
    | none ↦ err (value_error "invalid cursor")
    | some decoded ↦ elim (parse_position decoded) [
      | ok position ↦ ok (some position)
      | err e ↦ err e
    ]
  ]

-- What the store relies on: each decoder reads what its encoder writes, a datetime's text has no
-- bar, and the encoded text is a multiple of four characters, of which at most two at the end are
-- `=`.
pub record IsCodec (codec : Codec) : Type 0 where
  pub fromisoformat-isoformat :
      (at : ℕ) → codec.fromisoformat (codec.isoformat at) ≡ some (aware at)
  pub isoformat_has_bar : (at : ℕ) → has_bar (codec.isoformat at) ≡ false
  pub b64decode-b64encode : (s : String) → codec.b64decode (codec.b64encode s) ≡ some s
  pub b64encode_padding :
      (s : String)
      → (body : String) × (n : ℕ) × (codec.b64encode s ≡ body <> equals_signs n)
        × (rstrip body ≡ body)
        × (n ≤ 2)
        × ((text_len body + n) % 4 ≡ 0)
