-- ===== src/Base/Insertion.antt =====
-- A sort that meets what the program relies on of an ordered SELECT: rows that share a key keep
-- the order of the table.
use Prim.Native.Nat.{ℕ, ◌≤◌}
use mathlib.Core.Logic.{inl, inr}
use mathlib.Core.List.{List, [], ◌∷◌, Perm}
use mathlib.Core.List.Perm
use native.Mathlib.Omega.{arith}
use starkbank_backend_challe.Base.Tests.{leb, Bool-cases, if◌then◌else◌}
use starkbank_backend_challe.Base.Rows.{All}
use starkbank_backend_challe.Base.Select.{OrderBy, IsSortedBy}

module _ {A : Type 0} (key : A → ℕ) where
  abbrev place : A → List A → List A
  place x [] = x ∷ []
  place x (y ∷ ys) = let rest = place x ys in if leb (key x) (key y) then x ∷ y ∷ ys else y ∷ rest

  abbrev sorted : List A → List A
  sorted [] = []
  sorted (x ∷ xs) = place x (sorted xs)

  place-perm : (x : A) (xs : List A) → Perm (place x xs) (x ∷ xs)
  place-perm x [] = Perm.refl (x ∷ [])
  place-perm x (y ∷ ys) = elim (Bool-cases (leb (key x) (key y))) [
    | inl le ↦ rw le (Perm.refl (x ∷ y ∷ ys))
    | inr gt ↦ rw gt (Perm.trans (Perm.cons y (place-perm x ys)) (Perm.swap x y ys))
  ]

  pub sorted-perm : (xs : List A) → Perm (sorted xs) xs
  sorted-perm [] = Perm.nil
  sorted-perm (x ∷ xs) = Perm.trans (place-perm x (sorted xs)) (Perm.cons x (sorted-perm xs))

  All-place :
      (n : ℕ) (x : A) (xs : List A)
      → n ≤ key x
      → All (λ y. n ≤ key y) xs
      → All (λ y. n ≤ key y) (place x xs)
  All-place n x [] h rest = (h, tt)
  All-place n x (y ∷ ys) h rest = ground (arith, All-place n x ys h rest.1)

  All-le : (m n : ℕ) (xs : List A) → m ≤ n → All (λ y. n ≤ key y) xs → All (λ y. m ≤ key y) xs
  All-le m n [] h rest = tt
  All-le m n (x ∷ xs) h rest = (omega arith, All-le m n xs h rest.1)

  place-IsSortedBy : (x : A) (xs : List A) → IsSortedBy key xs → IsSortedBy key (place x xs)
  place-IsSortedBy x [] s = (tt, tt)
  place-IsSortedBy x (y ∷ ys) s = elim (Bool-cases (leb (key x) (key y))) [
    | inl le ↦
        let first : key x ≤ key y = ground arith in
        rw le (((first, All-le (key x) (key y) ys first s.0)), s)
    | inr gt ↦ rw gt (All-place (key y) x ys (ground arith) s.0, place-IsSortedBy x ys s.1)
  ]

  pub sorted-IsSortedBy : (xs : List A) → IsSortedBy key (sorted xs)
  sorted-IsSortedBy [] = tt
  sorted-IsSortedBy (x ∷ xs) = place-IsSortedBy x (sorted xs) (sorted-IsSortedBy xs)

abbrev pub insertion : OrderBy
insertion = record {
  sort = λ A key. sorted key;
  sort-perm = λ A key. sorted-perm key;
  sort-IsSortedBy = λ A key. sorted-IsSortedBy key;
}
