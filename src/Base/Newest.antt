-- ===== src/Base/Newest.antt =====
-- An ordered SELECT over rows that differ in the identifier: which rows it returns, and in which
-- order, is settled, and a WHERE may be taken before it or after it.
use Prim.Native.Nat.{ℕ}
use Prim.Native.String.{String}
use mathlib.Core.Path.{◌≡◌, sym, ap, subst, ◌∙◌}
use mathlib.Core.Bool.{Bool, true, false, Bool-set}
use mathlib.Core.Logic.{inl, inr, ◌≢◌}
use mathlib.Core.List.{List, [], ◌∷◌, ◌++◌, Mem, Pairwise, Pairwise-cons}
use mathlib.Core.List.Perm
use mathlib.Core.HLevel.{¬_prop}
use native.Mathlib.Omega.{arith}
use starkbank_backend_challe.Base.Tests.{Bool-cases}
use starkbank_backend_challe.Base.Rows.{All, select_where}
use starkbank_backend_challe.Base.Select.{mem-select_where, All-of_mem, All-mem}
use starkbank_backend_challe.Base.Keyset.{
  NewestFirst, is_older, IsOrdered, IsWeaklyOrdered, IsOrdered-select_where, ordered_unique,
  ordered_after, perm-select_where,
}

module _ (sql : NewestFirst) {A : Type 0} (at : A → ℕ) (id : A → String) where
  -- `x` comes before `y`.
  abbrev pub is_newer : A → A → Bool
  is_newer x y = is_older sql.collation (at y) (id y) (at x) (id x)

  abbrev pub IsDistinct : List A → Type 0
  IsDistinct = Pairwise (λ (x y : A). id x ≢ id y)

  is_newer_irrefl : (x : A) → is_newer x x ≡ false
  is_newer_irrefl x = ground (arith, sql.collation.before_irrefl (id x))

  is_newer_trans : (x y z : A) → is_newer x y ≡ true → is_newer y z ≡ true → is_newer x z ≡ true
  is_newer_trans x y z h k = ground (arith, sql.collation.before_trans (id z) (id y) (id x))

  is_newer_total : (x y : A) → id x ≢ id y → is_newer y x ≡ false → is_newer x y ≡ true
  is_newer_total x y ne h = ground (arith, sql.collation.before_total (id x) (id y) ne)

  All-is_newer :
      (x : A) (xs : List A)
      → ((y : A) → Mem y xs → id x ≢ id y)
      → All (λ y. is_newer y x ≡ false) xs
      → All (λ y. is_newer x y ≡ true) xs
  All-is_newer x xs ne h =
      All-of_mem (λ y. is_newer x y ≡ true) xs
        (λ y m.
          is_newer_total x y (ne y m)
            (All-mem (λ z. is_newer z x ≡ false) y xs (λ z. Bool-set _ _) h m))

  weak-IsOrdered :
      (xs : List A) → IsDistinct xs → IsWeaklyOrdered is_newer xs → IsOrdered is_newer xs
  weak-IsOrdered [] ne h = tt
  weak-IsOrdered (x ∷ xs) ne h =
      (All-is_newer x xs (Pairwise-cons.0 ne).0 h.0, weak-IsOrdered xs (Pairwise-cons.0 ne).1 h.1)

  pub select_where-IsDistinct :
      (p : A → Bool) (xs : List A) → IsDistinct xs → IsDistinct (select_where p xs)
  select_where-IsDistinct p [] ne = ne
  select_where-IsDistinct p (x ∷ xs) ne = elim (Bool-cases (p x)) [
    | inl e ↦ rw e (
        Pairwise-cons.1 (
          λ y m. (Pairwise-cons.0 ne).0 y (mem-select_where p y xs m).1,
          select_where-IsDistinct p xs (Pairwise-cons.0 ne).1,
        ))
    | inr e ↦ rw e (select_where-IsDistinct p xs (Pairwise-cons.0 ne).1)
  ]

  pub sort-IsOrdered : (xs : List A) → IsDistinct xs → IsOrdered is_newer (sql.sort A at id xs)
  sort-IsOrdered xs ne =
      weak-IsOrdered (sql.sort A at id xs)
        (Perm.pairwise {R = λ (x y : A). id x ≢ id y} (λ x y. ¬_prop) (λ x y h e. h (sym e))
          (Perm.symm (sql.sort-perm A at id xs)) ne)
        (sql.sort-IsWeaklyOrdered A at id xs)

  pub sort-select_where :
      (p : A → Bool) (xs : List A)
      → IsSet A
      → IsDistinct xs
      → sql.sort A at id (select_where p xs) ≡ select_where p (sql.sort A at id xs)
  sort-select_where p xs set ne =
      ordered_unique is_newer is_newer_irrefl is_newer_trans set _ _
        (sort-IsOrdered (select_where p xs) (select_where-IsDistinct p xs ne))
        (IsOrdered-select_where is_newer p _ (sort-IsOrdered xs ne))
        (Perm.trans (sql.sort-perm A at id (select_where p xs))
          (perm-select_where p (Perm.symm (sql.sort-perm A at id xs))))

  -- What is older than a row of the result stands after it.
  pub sort_after :
      (xs before : List A) (x : A) (after : List A)
      → IsSet A
      → IsDistinct xs
      → sql.sort A at id xs ≡ before ++ x ∷ after
      → sql.sort A at id (select_where (is_newer x) xs) ≡ after
  sort_after xs before x after set ne e =
      sort-select_where (is_newer x) xs set ne
      ∙ ap (select_where (is_newer x)) e
      ∙ ordered_after is_newer is_newer_irrefl is_newer_trans before x after
          (subst (IsOrdered is_newer) e (sort-IsOrdered xs ne))
