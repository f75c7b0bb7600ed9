-- ===== src/Review/Walk.antt =====
-- persistence/review_store.py: a client that follows `next_cursor` from page to page.
use mathlib.Core.List.{append_assoc, map-append}
use starkbank_backend_challe.Base.{
  ℕ, zero, suc, ◌-◌, ◌≤◌, ◌<◌, ◌≡◌, refl, sym, ap, ◌∙◌, true, false, Option, none, some, List, [],
  ◌∷◌, ◌++◌, map, String, length, take, ltb, arith, inl, inr, Bool-cases,
}
use starkbank_backend_challe.Base.Keyset.{NewestFirst, perm-length}
use starkbank_backend_challe.Base.Newest.{IsDistinct, sort_after}
use starkbank_backend_challe.Domain.Errors.{Result, ok, err, value_error}
use starkbank_backend_challe.Review.Cursor.{Codec, IsCodec, cursor, decode_cursor}
use starkbank_backend_challe.Review.RoundTrip.{decode_cursor-cursor}
use starkbank_backend_challe.Review.Page.{
  ReviewPage, position_at, cursor_of, page, after_cursor, fetch_page, mapping_page,
}

-- What a client gets that asks for the first page and then, as long as an answer has one, for the
-- page of its `next_cursor`: the items of all the pages. It gives up after `fuel` answers.
unfoldable pub follow :
    {B : Type 0} → (Option String → Result (ReviewPage B)) → ℕ → Option String → Result (List B)
follow load zero value = err (value_error "no end")
follow load (suc fuel) value = elim (load value) [
  | err e ↦ err e
  | ok answer ↦ elim answer.next_cursor [
    | none ↦ ok answer.items
    | some next ↦ elim (follow load fuel (some next)) [
      | ok items ↦ ok (answer.items ++ items)
      | err e ↦ err e
    ]
  ]
]

module _ {B : Type 0} (load : Option String → Result (ReviewPage B)) (fuel : ℕ)
    (value : Option String) (answer : ReviewPage B) where
  follow_done :
      load value ≡ ok answer
      → answer.next_cursor ≡ none
      → follow load (suc fuel) value ≡ ok answer.items
  unfolding follow
  follow_done e last = rw (follow, e, last) refl

  follow_next :
      (next : String) (items : List B)
      → load value ≡ ok answer
      → answer.next_cursor ≡ some next
      → follow load fuel (some next) ≡ ok items
      → follow load (suc fuel) value ≡ ok (answer.items ++ items)
  unfolding follow
  follow_next next items e more rest = rw (follow, e, more, rest) refl

module _ {A : Type 0} where
  -- A list that goes on after its first `suc n` rows, split at the last of them.
  split_rows :
      (n : ℕ) (rows : List A)
      → suc n < length rows
      → (before : List A) × (last : A) × (after : List A) × (rows ≡ before ++ last ∷ after)
        × (take (suc n) rows ≡ before ++ last ∷ [])
        × (length after < length rows)
        × ((g : A → ℕ × String) → position_at n (map g (take (suc (suc n)) rows)) ≡ some (g last))
  split_rows n [] h = absurd (omega arith)
  split_rows zero (x ∷ rows) h = ([], x, rows, refl, refl, omega arith, λ g. refl)
  split_rows (suc n) (x ∷ rows) h =
      let (before, last, after, e, first, shorter, at) = split_rows n rows (omega arith) in
      (x ∷ before, last, after, ap (λ l. x ∷ l) e, ap (λ l. x ∷ l) first, omega arith, at)

  module _ {B : Type 0} (f : A → B) where
    take-map-take :
        (n : ℕ) (rows : List A) → take n (map f (take (suc n) rows)) ≡ map f (take n rows)
    take-map-take zero rows = refl
    take-map-take (suc n) [] = refl
    take-map-take (suc n) (x ∷ rows) = ap (λ l. f x ∷ l) (take-map-take n rows)

    length-map-take :
        (n : ℕ) (rows : List A) → ltb n (length (map f (take (suc n) rows))) ≡ ltb n (length rows)
    length-map-take n [] = refl
    length-map-take zero (x ∷ rows) = ground arith
    length-map-take (suc n) (x ∷ rows) = ground (arith, length-map-take n rows)

  take_all : (n : ℕ) (rows : List A) → length rows ≤ n → take n rows ≡ rows
  take_all zero [] h = refl
  take_all zero (x ∷ rows) h = absurd (omega arith)
  take_all (suc n) [] h = refl
  take_all (suc n) (x ∷ rows) h = ap (λ l. x ∷ l) (take_all n rows (omega arith))

module _ (codec : Codec) (sql : NewestFirst) {A B : Type 0} (timestamp : A → ℕ)
    (identifier : A → String) (mapper : A → B) (rows : List A) (total : ℕ) where
  -- The rows that are left for a position, in order.
  abbrev left_after : Option (ℕ × String) → List A
  left_after decoded =
      sql.sort A timestamp identifier
        (after_cursor codec sql timestamp identifier mapper decoded rows)

  fetch_last :
      (limit : ℕ) (decoded : Option (ℕ × String)) (rest : List A)
      → left_after decoded ≡ rest
      → length rest ≤ limit
      → fetch_page codec sql timestamp identifier mapper rows total limit decoded
        ≡ record { items = map mapper rest; next_cursor = none; total = total }
  unfolding fetch_page page
  fetch_last limit decoded rest e h =
      let more : ltb limit (length rest) ≡ false = ground arith in
      rw
        (
          e,
          length-map-take mapper limit rest,
          more,
          take-map-take mapper limit rest,
          take_all limit rest h,
        )
        refl

  fetch_more :
      (n : ℕ) (decoded : Option (ℕ × String)) (rest before : List A) (last : A)
      → left_after decoded ≡ rest
      → suc n < length rest
      → take (suc n) rest ≡ before ++ last ∷ []
      → position_at n (map (λ row. (timestamp row, identifier row)) (take (suc (suc n)) rest))
        ≡ some (timestamp last, identifier last)
      → fetch_page codec sql timestamp identifier mapper rows total (suc n) decoded ≡ record {
        items = map mapper (before ++ last ∷ []);
        next_cursor = some (cursor codec (timestamp last) (identifier last));
        total = total;
      }
  unfolding fetch_page page cursor_of
  fetch_more n decoded rest before last e h first at =
      let more : ltb (suc n) (length rest) ≡ true = ground arith in
      let index : suc n - 1 ≡ n = omega arith in
      rw
        (
          e,
          length-map-take mapper (suc n) rest,
          more,
          take-map-take mapper (suc n) rest,
          first,
          index,
          at,
        )
        refl

  decoded_page :
      (limit : ℕ) (value : Option String) (decoded : Option (ℕ × String)) (answer : ReviewPage B)
      → decode_cursor codec value ≡ ok decoded
      → fetch_page codec sql timestamp identifier mapper rows total limit decoded ≡ answer
      → mapping_page codec sql timestamp identifier mapper rows total limit value ≡ ok answer
  unfolding mapping_page
  decoded_page limit value decoded answer d e = rw (mapping_page, d, e) refl

  module _ (laws : IsCodec codec) (n : ℕ) (set : IsSet A)
      (distinct : IsDistinct sql timestamp identifier rows) where
    abbrev client : ℕ → Option String → Result (List B)
    client = follow (mapping_page codec sql timestamp identifier mapper rows total (suc n))

    -- One answer that is not the last.
    client_step :
        (fuel : ℕ) (value : Option String) (decoded : Option (ℕ × String)) (rest before : List A)
        (last : A) (after : List A)
        → decode_cursor codec value ≡ ok decoded
        → left_after decoded ≡ rest
        → suc n < length rest
        → rest ≡ before ++ last ∷ after
        → take (suc n) rest ≡ before ++ last ∷ []
        → position_at n (map (λ row. (timestamp row, identifier row)) (take (suc (suc n)) rest))
          ≡ some (timestamp last, identifier last)
        → client fuel (some (cursor codec (timestamp last) (identifier last)))
          ≡ ok (map mapper after)
        → client (suc fuel) value ≡ ok (map mapper rest)
    client_step fuel value decoded rest before last after d l h split first at later =
        follow_next _ fuel value _ (cursor codec (timestamp last) (identifier last))
          (map mapper after)
          (decoded_page (suc n) value decoded _ d
            (fetch_more n decoded rest before last l h first at))
          refl later
        ∙ rw
            (
              split,
              ← map-append mapper (before ++ last ∷ []) after,
              append_assoc before (last ∷ []) after,
            )
            refl

    -- `client_from` at one number of answers.
    abbrev FollowsAt : ℕ → Type 0
    FollowsAt fuel =
        (value : Option String) (decoded : Option (ℕ × String)) (seen rest : List A)
        → decode_cursor codec value ≡ ok decoded
        → sql.sort A timestamp identifier rows ≡ seen ++ rest
        → left_after decoded ≡ rest
        → length rest < fuel
        → client fuel value ≡ ok (map mapper rest)

    client_more :
        (fuel : ℕ) (again : FollowsAt fuel) (value : Option String) (decoded : Option (ℕ × String))
        (seen rest before : List A) (last : A) (after : List A)
        → decode_cursor codec value ≡ ok decoded
        → sql.sort A timestamp identifier rows ≡ seen ++ rest
        → left_after decoded ≡ rest
        → length rest < suc fuel
        → suc n < length rest
        → rest ≡ before ++ last ∷ after
        → take (suc n) rest ≡ before ++ last ∷ []
        → length after < length rest
        → position_at n (map (λ row. (timestamp row, identifier row)) (take (suc (suc n)) rest))
          ≡ some (timestamp last, identifier last)
        → client (suc fuel) value ≡ ok (map mapper rest)
    unfolding after_cursor
    client_more fuel again value decoded seen rest before last after d e l h many split first
          shorter at =
        let whole : sql.sort A timestamp identifier rows ≡ (seen ++ before) ++ last ∷ after =
          e ∙ ap (λ l. seen ++ l) split ∙ sym (append_assoc seen before (last ∷ after)) in
        client_step fuel value decoded rest before last after d l many split first at (
          again (some (cursor codec (timestamp last) (identifier last)))
            (some (timestamp last, identifier last)) (seen ++ before ++ last ∷ []) after
            (decode_cursor-cursor codec laws (timestamp last) (identifier last))
            (whole ∙ sym (append_assoc (seen ++ before) (last ∷ []) after))
            (sort_after sql timestamp identifier rows (seen ++ before) last after set distinct
              whole)
            (omega arith))

    -- From a position on, a client gets what stands after it.
    client_from : (fuel : ℕ) → FollowsAt fuel
    client_from zero value decoded seen rest d e l h = absurd (omega arith)
    client_from (suc fuel) value decoded seen rest d e l h =
        elim (Bool-cases (ltb (suc n) (length rest))) [
          | inr few ↦
              follow_done _ fuel value _
                (decoded_page (suc n) value decoded _ d
                  (fetch_last (suc n) decoded rest l (ground arith)))
                refl
          | inl many ↦
              let (before, last, after, split, first, shorter, at) =
                split_rows n rest (ground arith) in
              client_more fuel (client_from fuel) value decoded seen rest before last after d e l h
                (ground arith) split first shorter (at _)
        ]

    follow_all_lem :
        (fuel : ℕ)
        → length rows < fuel
        → client fuel none ≡ ok (map mapper (sql.sort A timestamp identifier rows))
    unfolding after_cursor decode_cursor
    follow_all_lem fuel h =
        let same : length (sql.sort A timestamp identifier rows) ≡ length rows =
          perm-length (sql.sort-perm A timestamp identifier rows) in
        client_from fuel none none [] (sql.sort A timestamp identifier rows) refl refl refl
          (omega arith)

  pub follow_limit_lem :
      IsCodec codec
      → IsSet A
      → IsDistinct sql timestamp identifier rows
      → (limit : ℕ) (fuel : ℕ) → 0 < limit
      → length rows < fuel
      → follow (mapping_page codec sql timestamp identifier mapper rows total limit) fuel none
        ≡ ok (map mapper (sql.sort A timestamp identifier rows))
  follow_limit_lem laws set distinct zero fuel positive enough = absurd (omega arith)
  follow_limit_lem laws set distinct (suc n) fuel positive enough =
      follow_all_lem laws n set distinct fuel enough
