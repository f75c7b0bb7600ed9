-- ===== src/Base/Rows.antt =====
-- Statements over a table, a list of its rows in the order in which the database holds them.
use Prim.Native.Nat.{ℕ, zero, suc, ◌+◌}
use Prim.Native.String.{String}
use mathlib.Core.Path.{◌≡◌, refl, ap}
use mathlib.Core.Bool.{Bool, true, false, not, ◌&&◌}
use mathlib.Core.Option.{Option, none, some}
use mathlib.Core.List.{List, [], ◌∷◌, ◌++◌}
use native.Mathlib.Omega.{arith}
use text.Mathlib.Text.{◌==◌}
use starkbank_backend_challe.Base.Tests.{if◌then◌else◌, eqb, holds}

module _ {ℓ} {A : Type ℓ} where
  abbrev pub length : List A → ℕ
  length [] = 0
  length (x ∷ xs) = suc (length xs)

  abbrev pub take : ℕ → List A → List A
  take zero xs = []
  take (suc n) [] = []
  take (suc n) (x ∷ xs) = x ∷ take n xs

  abbrev pub head? : List A → Option A
  head? [] = none
  head? (x ∷ xs) = some x

  -- SELECT … WHERE
  abbrev pub select_where : (A → Bool) → List A → List A
  select_where p [] = []
  select_where p (x ∷ xs) = let rest = select_where p xs in if p x then x ∷ rest else rest

  -- UPDATE … SET … WHERE
  abbrev pub update_where : (A → Bool) → (A → A) → List A → List A
  update_where p f [] = []
  update_where p f (x ∷ xs) = (if p x then f x else x) ∷ update_where p f xs

  -- SELECT … WHERE … .first(), where at most one row fits
  abbrev pub first_where : (A → Bool) → List A → Option A
  first_where p [] = none
  first_where p (x ∷ xs) = let rest = first_where p xs in if p x then some x else rest

  abbrev pub exists_where : (A → Bool) → List A → Bool
  exists_where p [] = false
  exists_where p (x ∷ xs) = let rest = exists_where p xs in if p x then true else rest

  -- SELECT count(*) … WHERE, and the rowcount of an UPDATE
  abbrev pub count_where : (A → Bool) → List A → ℕ
  count_where p [] = 0
  count_where p (x ∷ xs) = (if p x then 1 else 0) + count_where p xs

  -- A UNIQUE constraint over a nullable column: two rows may share NULL, and no value.
  abbrev pub taken : (A → Option String) → Option String → List A → Bool
  taken key none xs = false
  taken key (some v) xs = exists_where (λ x. holds (key x) v) xs

  abbrev pub is_unique : (A → Option String) → List A → Bool
  is_unique key [] = true
  is_unique key (x ∷ xs) = not (taken key (key x) xs) && is_unique key xs

  -- A UNIQUE constraint over two columns.
  abbrev pub is_unique_pair : (A → String) → (A → ℕ) → List A → Bool
  is_unique_pair key number [] = true
  is_unique_pair key number (x ∷ xs) =
      not (exists_where (λ y. key y == key x && eqb (number y) (number x)) xs)
      && is_unique_pair key number xs

  -- A CHECK constraint.
  abbrev pub every : (A → Bool) → List A → Bool
  every p [] = true
  every p (x ∷ xs) = p x && every p xs

  -- A property of every row.
  abbrev pub All {κ} : (A → Type κ) → List A → Type κ
  All P [] = Unit
  All P (x ∷ xs) = P x × All P xs

  -- Two states of one table, row by row.
  abbrev pub RowByRow {κ} : (A → A → Type κ) → List A → List A → Type κ
  RowByRow R [] [] = Unit
  RowByRow R (x ∷ xs) (y ∷ ys) = R x y × RowByRow R xs ys
  RowByRow R _ _ = (k : Unit {κ}) → ⊥

module _ {ℓ} {A : Type ℓ} where
  pub length-update_where :
      (p : A → Bool) (f : A → A) (xs : List A) → length (update_where p f xs) ≡ length xs
  length-update_where p f [] = refl
  length-update_where p f (x ∷ xs) = ap suc (length-update_where p f xs)

  pub update_where_missing :
      (p : A → Bool) (f : A → A) (xs : List A)
      → exists_where p xs ≡ false
      → update_where p f xs ≡ xs
  update_where_missing p f [] h = refl
  update_where_missing p f (x ∷ xs) h = ground (arith, update_where_missing p f xs)

  pub RowByRow-update_where {κ} :
      (R : A → A → Type κ) (p : A → Bool) (f : A → A)
      → ((x : A) → R x x)
      → ((x : A) → p x ≡ true → R x (f x))
      → (xs : List A) → RowByRow R xs (update_where p f xs)
  RowByRow-update_where R p f same step [] = tt
  RowByRow-update_where R p f same step (x ∷ xs) =
      (ground (arith, same x, step x), RowByRow-update_where R p f same step xs)

  pub RowByRow-refl {κ} :
      (R : A → A → Type κ) → ((x : A) → R x x) → (xs : List A) → RowByRow R xs xs
  RowByRow-refl R same [] = tt
  RowByRow-refl R same (x ∷ xs) = (same x, RowByRow-refl R same xs)

  pub All-update_where {κ} :
      (P : A → Type κ) (p : A → Bool) (f : A → A)
      → ((x : A) → p x ≡ true → P x → P (f x))
      → (xs : List A) → All P xs
      → All P (update_where p f xs)
  All-update_where P p f step [] h = tt
  All-update_where P p f step (x ∷ xs) h =
      (ground (arith, step x, h.0), All-update_where P p f step xs h.1)

  pub All-append {κ} : (P : A → Type κ) (xs ys : List A) → All P xs → All P ys → All P (xs ++ ys)
  All-append P [] ys hx hy = hy
  All-append P (x ∷ xs) ys hx hy = (hx.0, All-append P xs ys hx.1 hy)

  pub All-first_where {κ} :
      (P : A → Type κ) (p : A → Bool) (xs : List A) {a : A}
      → All P xs
      → first_where p xs ≡ some a
      → P a
  All-first_where P p [] h e = cc
  All-first_where P p (x ∷ xs) {a} h e = ground (arith, h.0, All-first_where P p xs {a = a} h.1)

  pub first_where_holds :
      (p : A → Bool) (xs : List A) {a : A} → first_where p xs ≡ some a → p a ≡ true
  first_where_holds p [] e = cc
  first_where_holds p (x ∷ xs) {a} e = ground (arith, first_where_holds p xs {a = a})

  pub first_where-none :
      (p : A → Bool) (xs : List A) → first_where p xs ≡ none → exists_where p xs ≡ false
  first_where-none p [] e = refl
  first_where-none p (x ∷ xs) e = ground (arith, first_where-none p xs)

  -- A lookup by a column that the UPDATE leaves alone finds the updated row.
  pub first_where-update_where :
      (q p : A → Bool) (f : A → A)
      → ((x : A) → q (f x) ≡ q x)
      → (xs : List A) (a : A) → first_where q xs ≡ some a
      → first_where q (update_where p f xs) ≡ some (if p a then f a else a)
  first_where-update_where q p f keeps [] a e = cc
  first_where-update_where q p f keeps (x ∷ xs) a e =
      ground (arith, keeps x, first_where-update_where q p f keeps xs a)
