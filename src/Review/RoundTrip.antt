-- ===== src/Review/RoundTrip.antt =====
-- persistence/review_store.py: a cursor read back.
use Prim.Native.Nat.{◌%◌}
use text.Mathlib.TextLemmas.{nil-append, cons-append}
use starkbank_backend_challe.Base.{
  ℕ, zero, suc, ◌+◌, ◌-◌, ◌≤◌, ◌≡◌, refl, false, some, String, ◌<>◌, arith,
}
use starkbank_backend_challe.Domain.Errors.{ok}
use starkbank_backend_challe.Domain.Time.{as_utc}
use starkbank_backend_challe.Review.Cursor.{
  Codec, IsCodec, text_len, equals_signs, rstrip, has_bar, split_bar, padded, iso, cursor,
  parse_position, decode_cursor,
}

split_bar-append : (a b : String) → has_bar a ≡ false → split_bar (a <> ("|" <> b)) ≡ some (a, b)
unfolding split_bar has_bar
split_bar-append String.[] b h = rw (nil-append, cons-append, nil-append) refl
split_bar-append (String.◌∷◌ c s) b h = rw cons-append (ground (arith, split_bar-append s b))

rstrip-equals_signs : (n : ℕ) → rstrip (equals_signs n) ≡ ""
unfolding rstrip equals_signs
rstrip-equals_signs zero = refl
rstrip-equals_signs (suc n) = rw (rstrip-equals_signs n) refl

rstrip-append : (s : String) (n : ℕ) → rstrip (s <> equals_signs n) ≡ rstrip s
unfolding rstrip
rstrip-append String.[] n = rw nil-append (rstrip-equals_signs n)
rstrip-append (String.◌∷◌ c s) n = rw (cons-append, rstrip-append s n) refl

-- The number of signs that were taken off is the number that is put back.
missing_signs : (len n : ℕ) → n ≤ 2 → (len + n) % 4 ≡ 0 → (4 - len % 4) % 4 ≡ n
missing_signs len n h e = omega arith

padded-rstrip :
    (encoded body : String) (n : ℕ)
    → encoded ≡ body <> equals_signs n
    → rstrip body ≡ body
    → n ≤ 2
    → (text_len body + n) % 4 ≡ 0
    → padded (rstrip encoded) ≡ encoded
unfolding padded
padded-rstrip encoded body n e stripped le multiple =
    rw (e, rstrip-append body n, stripped, missing_signs (text_len body) n le multiple) refl

-- Where the standard library's decoders read what its encoders write, a cursor that the store made
-- for an instant and an identifier decodes to that instant and that identifier, whatever characters
-- the identifier has.
pub decode_cursor-cursor :
    (codec : Codec)
    → IsCodec codec
    → (at : ℕ) (id : String) → decode_cursor codec (some (cursor codec at id)) ≡ ok (some (at, id))
unfolding decode_cursor cursor parse_position iso as_utc
decode_cursor-cursor codec laws at id =
    let (body, n, e, stripped, le, multiple) =
      laws.b64encode_padding (codec.isoformat at <> ("|" <> id)) in
    rw
      (
        decode_cursor,
        cursor,
        iso,
        padded-rstrip _ body n e stripped le multiple,
        laws.b64decode-b64encode,
        parse_position,
        split_bar-append (codec.isoformat at) id (laws.isoformat_has_bar at),
        laws.fromisoformat-isoformat at,
      )
      refl
