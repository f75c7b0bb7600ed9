-- ===== src/Base/NewestInsertion.antt =====
-- A sort that meets what the program relies on of a SELECT ordered by an instant and a text.
use Prim.Native.Nat.{ℕ}
use Prim.Native.String.{String}
use mathlib.Core.Path.{◌≡◌}
use mathlib.Core.Bool.{Bool, true, false}
use mathlib.Core.Logic.{inl, inr}
use mathlib.Core.List.{List, [], ◌∷◌, Perm}
use mathlib.Core.List.Perm
use native.Mathlib.Omega.{arith}
use text.Mathlib.TextEquality.{eq_iff}
use starkbank_backend_challe.Base.Tests.{Bool-cases, if◌then◌else◌}
use starkbank_backend_challe.Base.Rows.{All}
use starkbank_backend_challe.Base.Keyset.{Collation, NewestFirst, is_older, IsWeaklyOrdered}
use starkbank_backend_challe.Base.Texts.{by_code_points}

module _ (c : Collation) where
  -- Of two texts one is before the other, or they are the same.
  older_between :
      (a : ℕ) (i : String) (b : ℕ) (j : String) (d : ℕ) (k : String)
      → is_older c a i b j ≡ false
      → is_older c b j d k ≡ false
      → is_older c a i d k ≡ false
  older_between a i b j d k h g = ground (
    arith,
    h,
    g,
    eq_iff j k,
    eq_iff i j,
    c.before_total j k,
    c.before_total i j,
    c.before_total k j,
    c.before_trans i k j,
  )

  module _ {A : Type 0} (at : A → ℕ) (id : A → String) where
    abbrev pub newer : A → A → Bool
    newer x y = is_older c (at y) (id y) (at x) (id x)

    abbrev pub put : A → List A → List A
    put x [] = x ∷ []
    put x (y ∷ ys) = let rest = put x ys in if newer y x then y ∷ rest else x ∷ y ∷ ys

    abbrev pub newest_first : List A → List A
    newest_first [] = []
    newest_first (x ∷ xs) = put x (newest_first xs)

    put-perm : (x : A) (xs : List A) → Perm (put x xs) (x ∷ xs)
    put-perm x [] = Perm.refl (x ∷ [])
    put-perm x (y ∷ ys) = elim (Bool-cases (newer y x)) [
      | inl e ↦ rw e (Perm.trans (Perm.cons y (put-perm x ys)) (Perm.swap x y ys))
      | inr e ↦ rw e (Perm.refl (x ∷ y ∷ ys))
    ]

    pub newest_first-perm : (xs : List A) → Perm (newest_first xs) xs
    newest_first-perm [] = Perm.nil
    newest_first-perm (x ∷ xs) =
        Perm.trans (put-perm x (newest_first xs)) (Perm.cons x (newest_first-perm xs))

    All-put : (P : A → Type 0) (x : A) (xs : List A) → P x → All P xs → All P (put x xs)
    All-put P x [] h rest = (h, tt)
    All-put P x (y ∷ ys) h rest = elim (Bool-cases (newer y x)) [
      | inl e ↦ rw e (rest.0, All-put P x ys h rest.1)
      | inr e ↦ rw e (h, rest)
    ]

    All-later :
        (x y : A) (ys : List A)
        → newer y x ≡ false
        → All (λ z. newer z y ≡ false) ys
        → All (λ z. newer z x ≡ false) ys
    All-later x y [] h rest = tt
    All-later x y (z ∷ ys) h rest = (
      older_between (at x) (id x) (at y) (id y) (at z) (id z) h rest.0,
      All-later x y ys h rest.1,
    )

    older_asym : (x y : A) → newer y x ≡ true → newer x y ≡ false
    older_asym x y h =
        ground (arith, h, c.before_trans (id x) (id y) (id x), c.before_irrefl (id x))

    put-IsWeaklyOrdered :
        (x : A) (xs : List A) → IsWeaklyOrdered newer xs → IsWeaklyOrdered newer (put x xs)
    put-IsWeaklyOrdered x [] s = (tt, tt)
    put-IsWeaklyOrdered x (y ∷ ys) s = elim (Bool-cases (newer y x)) [
      | inl e ↦ rw e (
        All-put (λ z. newer z y ≡ false) x ys (older_asym x y e) s.0,
        put-IsWeaklyOrdered x ys s.1,
      )
      | inr e ↦ rw e ((e, All-later x y ys e s.0), s)
    ]

    pub newest_first-IsWeaklyOrdered : (xs : List A) → IsWeaklyOrdered newer (newest_first xs)
    newest_first-IsWeaklyOrdered [] = tt
    newest_first-IsWeaklyOrdered (x ∷ xs) =
        put-IsWeaklyOrdered x (newest_first xs) (newest_first-IsWeaklyOrdered xs)

abbrev pub newest : NewestFirst
newest = record {
  collation = by_code_points;
  sort = λ A at id. newest_first by_code_points at id;
  sort-perm = λ A at id. newest_first-perm by_code_points at id;
  sort-IsWeaklyOrdered = λ A at id. newest_first-IsWeaklyOrdered by_code_points at id;
}
