-- ===== src/Base/Keyset.antt =====
-- What the program relies on of an ordered SELECT over an instant and a text, both descending: the
-- database compares texts in a strict total order of its own, returns the rows that fit, each as
-- often as the table has it, and none before a row with a greater key.
use Prim.Native.Nat.{ℕ, suc}
use Prim.Native.String.{String}
use mathlib.Core.Path.{◌≡◌, refl, sym, ap, subst, ◌∙◌}
use mathlib.Core.Bool.{Bool, true, false, false≢true, Bool-discrete, Bool-set, ◌&&◌, ◌||◌}
use mathlib.Core.Logic.{inl, inr, ◌≢◌}
use mathlib.Core.Logic.Or
use mathlib.Core.Nat as Core
use mathlib.Core.List
use mathlib.Core.List.{
  List, [], ◌∷◌, ◌++◌, filter, Pairwise, Pairwise-cons, Mem, Mem-prop, Perm, mem-cons,
  mem-cons_self, mem-append,
}
use mathlib.Core.List.Perm
use native.Mathlib.Omega.{arith}
use starkbank_backend_challe.Base.Tests.{Bool-cases, ltb, eqb}
use starkbank_backend_challe.Base.Rows.{All, select_where, length}
use starkbank_backend_challe.Base.Select.{All-mem}

-- `<` of two texts, by the database's collation.
pub record Collation : Type 0 where
  pub before : String → String → Bool
  pub before_irrefl : (s : String) → before s s ≡ false
  pub before_trans : (s t u : String) → before s t ≡ true → before t u ≡ true → before s u ≡ true
  pub before_total : (s t : String) → s ≢ t → before s t ≡ false → before t s ≡ true

-- `timestamp < t OR timestamp = t AND identifier < i`
abbrev pub is_older : Collation → ℕ → String → ℕ → String → Bool
is_older collation at id t i = ltb at t || (eqb at t && collation.before id i)

module _ {A : Type 0} (r : A → A → Bool) where
  -- Each row stands in the relation to each later one.
  abbrev pub IsOrdered : List A → Type 0
  IsOrdered [] = Unit
  IsOrdered (x ∷ xs) = All (λ y. r x y ≡ true) xs × IsOrdered xs

  abbrev pub IsWeaklyOrdered : List A → Type 0
  IsWeaklyOrdered [] = Unit
  IsWeaklyOrdered (x ∷ xs) = All (λ y. r y x ≡ false) xs × IsWeaklyOrdered xs

pub record NewestFirst : Type 1 where
  pub collation : Collation
  pub sort : (A : Type 0) → (A → ℕ) → (A → String) → List A → List A
  pub sort-perm :
      (A : Type 0) (at : A → ℕ) (id : A → String) (xs : List A) → Perm (sort A at id xs) xs
  pub sort-IsWeaklyOrdered :
      (A : Type 0) (at : A → ℕ) (id : A → String) (xs : List A)
      → IsWeaklyOrdered (λ x y. is_older collation (at y) (id y) (at x) (id x)) (sort A at id xs)

-- A number of the library's lists.
abbrev to_native : Core.ℕ → ℕ
to_native Core.zero = 0
to_native (Core.suc n) = suc (to_native n)

module _ {A : Type 0} where
  All-select_where :
      (P : A → Type 0) (p : A → Bool) (xs : List A) → All P xs → All P (select_where p xs)
  All-select_where P p [] h = tt
  All-select_where P p (x ∷ xs) h = ground (arith, All-select_where P p xs h.1, h.0)

  pub IsOrdered-select_where :
      (r : A → A → Bool) (p : A → Bool) (xs : List A)
      → IsOrdered r xs
      → IsOrdered r (select_where p xs)
  IsOrdered-select_where r p [] h = tt
  IsOrdered-select_where r p (x ∷ xs) h = elim (Bool-cases (p x)) [
    | inl e ↦ rw e (All-select_where _ p xs h.0, IsOrdered-select_where r p xs h.1)
    | inr e ↦ rw e (IsOrdered-select_where r p xs h.1)
  ]

  select_where-All :
      (p : A → Bool) (xs : List A) → All (λ y. p y ≡ true) xs → select_where p xs ≡ xs
  select_where-All p [] h = refl
  select_where-All p (x ∷ xs) h = rw (h.0, select_where-All p xs h.1) refl

  select_where-filter :
      (p : A → Bool) (xs : List A) → select_where p xs ≡ filter (λ x. Bool-discrete (p x) true) xs
  select_where-filter p [] = refl
  select_where-filter p (x ∷ xs) = elim (Bool-cases (p x)) [
    | inl e ↦ rw (e, select_where-filter p xs) refl
    | inr e ↦ rw (e, select_where-filter p xs) refl
  ]

  pub perm-select_where :
      (p : A → Bool) {xs ys : List A} → Perm xs ys → Perm (select_where p xs) (select_where p ys)
  perm-select_where p {xs} {ys} h =
      rw (select_where-filter p xs, select_where-filter p ys)
        (Perm.filter (λ x. Bool-discrete (p x) true) h)

  native_length : (xs : List A) → to_native (List.length xs) ≡ length xs
  native_length [] = refl
  native_length (x ∷ xs) = ap suc (native_length xs)

  pub perm-length : {xs ys : List A} → Perm xs ys → length xs ≡ length ys
  perm-length {xs} {ys} same =
      sym (native_length xs) ∙ ap to_native (Perm.length-eq same) ∙ native_length ys

  -- An ordered list is determined by its rows.
  pub ordered_unique :
      (r : A → A → Bool)
      → ((x : A) → r x x ≡ false)
      → ((x y z : A) → r x y ≡ true → r y z ≡ true → r x z ≡ true)
      → IsSet A
      → (xs ys : List A) → IsOrdered r xs
      → IsOrdered r ys
      → Perm xs ys
      → xs ≡ ys
  ordered_unique r irrefl trans set [] ys hx hy same = Perm.nil-eq same
  ordered_unique r irrefl trans set (x ∷ xs) [] hx hy same = sym (Perm.nil-eq (Perm.symm same))
  ordered_unique r irrefl trans set (x ∷ xs) (y ∷ ys) hx hy same =
      let first : x ≡ y =
        Or.elim (set x y) (mem-cons.0 (Perm.subset same x mem-cons_self)) (λ e. e)
          (λ m.
            Or.elim (set x y) (mem-cons.0 (Perm.subset (Perm.symm same) y mem-cons_self)) sym (λ n.
              absurd (
                false≢true (
                  sym (irrefl x)
                  ∙ trans x y x (All-mem (λ z. r x z ≡ true) y xs (λ z. Bool-set _ _) hx.0 n)
                      (All-mem (λ z. r y z ≡ true) x ys (λ z. Bool-set _ _) hy.0 m))))) in
      let rest : xs ≡ ys =
        ordered_unique r irrefl trans set xs ys hx.1 hy.1
          (Perm.cons_inv (subst (λ (z : A). Perm (x ∷ xs) (z ∷ ys)) (sym first) same)) in
      cc (first, rest)

  -- The rows after `x` are those that `x` stands in the relation to.
  pub ordered_after :
      (r : A → A → Bool)
      → ((x : A) → r x x ≡ false)
      → ((x y z : A) → r x y ≡ true → r y z ≡ true → r x z ≡ true)
      → (xs : List A) (x : A) (ys : List A) → IsOrdered r (xs ++ x ∷ ys)
      → select_where (r x) (xs ++ x ∷ ys) ≡ ys
  ordered_after r irrefl trans [] x ys h = rw (irrefl x, select_where-All (r x) ys h.0) refl
  ordered_after r irrefl trans (z ∷ xs) x ys h = elim (Bool-cases (r x z)) [
    | inl e ↦ absurd (
        false≢true (
          sym (irrefl x)
          ∙ trans x z x e (
              All-mem (λ y. r z y ≡ true) x (xs ++ x ∷ ys) (λ y. Bool-set _ _) h.0
                (mem-append.1 (Or.inr mem-cons_self)))))
    | inr e ↦ rw (e, ordered_after r irrefl trans xs x ys h.1) refl
  ]
