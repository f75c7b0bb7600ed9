-- ===== src/Base/Select.antt =====
-- What the program relies on of an ordered SELECT, which the database runs: it returns the rows
-- that fit, each as often as the table has it, in an order that the sort key does not contradict.
-- Rows that share a key may come in any order.
use Prim.Native.Nat.{ℕ, ◌≤◌}
use mathlib.Core.Path.{◌≡◌, refl, sym, ap, subst, ◌∙◌}
use mathlib.Core.Bool.{Bool, true, false, Bool-set, false≢true}
use mathlib.Core.Logic.{inl, inr}
use mathlib.Core.Logic.Or
use mathlib.Core.Option.{Option, none, some, some-injective}
use mathlib.Core.List.{List, [], ◌∷◌, Mem, Mem-prop, Perm, mem-cons, mem-cons_self, not-mem-nil}
use mathlib.Core.List.Perm
use mathlib.Core.HLevel.{×_prop}
use native.Mathlib.Omega.{arith}
use native.Mathlib.Bridge.{le_prop}
use starkbank_backend_challe.Base.Tests.{Bool-cases}
use starkbank_backend_challe.Base.Rows.{All, head?, select_where, exists_where}

module _ {A : Type 0} where
  abbrev pub IsSortedBy : (A → ℕ) → List A → Type 0
  IsSortedBy key [] = Unit
  IsSortedBy key (x ∷ xs) = All (λ y. key x ≤ key y) xs × IsSortedBy key xs

pub record OrderBy : Type 1 where
  pub sort : (A : Type 0) → (A → ℕ) → List A → List A
  pub sort-perm : (A : Type 0) (key : A → ℕ) (xs : List A) → Perm (sort A key xs) xs
  pub sort-IsSortedBy : (A : Type 0) (key : A → ℕ) (xs : List A) → IsSortedBy key (sort A key xs)

module _ {A : Type 0} where
  pub mem-select_where :
      (p : A → Bool) (a : A) (xs : List A) → Mem a (select_where p xs) → (p a ≡ true) × Mem a xs
  mem-select_where p a [] m = absurd (not-mem-nil m)
  mem-select_where p a (x ∷ xs) m = elim (Bool-cases (p x)) [
    | inl fits ↦
        Or.elim (×_prop (Bool-set _ _) (Mem-prop {a = a} {l = x ∷ xs}))
          (mem-cons.0 (rw (fits, select_where) at m)) (λ e. (rw e fits, mem-cons.1 (Or.inl e)))
          (λ later. let h = mem-select_where p a xs later in (h.0, mem-cons.1 (Or.inr h.1)))
    | inr misses ↦
        let h = mem-select_where p a xs (rw (misses, select_where) at m) in
        (h.0, mem-cons.1 (Or.inr h.1))
  ]

  pub select_where-mem :
      (p : A → Bool) (a : A) (xs : List A) → Mem a xs → p a ≡ true → Mem a (select_where p xs)
  select_where-mem p a [] m h = absurd (not-mem-nil m)
  select_where-mem p a (x ∷ xs) m h = elim (Bool-cases (p x)) [
    | inl fits ↦ rw fits (
        Or.elim Mem-prop (mem-cons.0 m) (λ e. mem-cons.1 (Or.inl e))
          (λ later. mem-cons.1 (Or.inr (select_where-mem p a xs later h))))
    | inr misses ↦ rw misses (
        Or.elim Mem-prop (mem-cons.0 m) (λ e. absurd (false≢true (sym misses ∙ ap p (sym e) ∙ h)))
          (λ later. select_where-mem p a xs later h))
  ]

  pub head?-mem : (xs : List A) (a : A) → head? xs ≡ some a → Mem a xs
  head?-mem [] a e = cc
  head?-mem (x ∷ xs) a e = mem-cons.1 (Or.inl (sym (some-injective x a e)))

  pub All-mem :
      (P : A → Type 0) (a : A) (xs : List A) → ((x : A) → IsProp (P x)) → All P xs → Mem a xs → P a
  All-mem P a [] prop h m = absurd (not-mem-nil m)
  All-mem P a (x ∷ xs) prop h m =
      Or.elim (prop a) (mem-cons.0 m) (λ e. subst P (sym e) h.0)
        (λ later. All-mem P a xs prop h.1 later)

  head?-least :
      (key : A → ℕ) (xs : List A) (a b : A)
      → IsSortedBy key xs
      → head? xs ≡ some a
      → Mem b xs
      → key a ≤ key b
  head?-least key [] a b s e m = cc
  head?-least key (x ∷ xs) a b s e m =
      subst (λ (y : A). key y ≤ key b) (some-injective x a e)
        (Or.elim le_prop (mem-cons.0 m) (λ d. omega (arith, ap key d))
          (λ later. All-mem (λ (y : A). key x ≤ key y) b xs (λ y. le_prop) s.0 later))

  pub mem-exists_where :
      (p : A → Bool) (a : A) (xs : List A) → Mem a xs → p a ≡ true → exists_where p xs ≡ true
  mem-exists_where p a [] m h = absurd (not-mem-nil m)
  mem-exists_where p a (x ∷ xs) m h =
      Or.elim (Bool-set _ _) (mem-cons.0 m) (λ e. rw (← e, h))
        (λ later. ground (arith, mem-exists_where p a xs later h))

  pub exists_where-false :
      (p : A → Bool) (xs : List A) → ((x : A) → Mem x xs → p x ≡ false) → exists_where p xs ≡ false
  exists_where-false p [] h = refl
  exists_where-false p (x ∷ xs) h =
      rw (h x mem-cons_self) (exists_where-false p xs (λ y m. h y (mem-cons.1 (Or.inr m))))

  pub All-of_mem : (P : A → Type 0) (xs : List A) → ((x : A) → Mem x xs → P x) → All P xs
  All-of_mem P [] h = tt
  All-of_mem P (x ∷ xs) h =
      (h x mem-cons_self, All-of_mem P xs (λ y m. h y (mem-cons.1 (Or.inr m))))

  pub exists_where-select :
      (p : A → Bool) (xs : List A) → select_where p xs ≡ [] → exists_where p xs ≡ false
  exists_where-select p [] e = refl
  exists_where-select p (x ∷ xs) e = ground (arith, exists_where-select p xs)

-- SELECT … WHERE … ORDER BY … LIMIT 1
abbrev pub first_by : OrderBy → {A : Type 0} → (A → ℕ) → (A → Bool) → List A → Option A
first_by sql {A} key p xs = head? (sql.sort A key (select_where p xs))

module _ (sql : OrderBy) {A : Type 0} (key : A → ℕ) (p : A → Bool) (xs : List A) where
  sort-mem : (a : A) → Mem a (sql.sort A key (select_where p xs)) → Mem a (select_where p xs)
  sort-mem a = Perm.subset (sql.sort-perm A key (select_where p xs)) a

  -- The row fits, and the table has it.
  pub first_by_fits : (a : A) → first_by sql key p xs ≡ some a → (p a ≡ true) × Mem a xs
  first_by_fits a e = mem-select_where p a xs (sort-mem a (head?-mem _ a e))

  -- No row that fits has a smaller key.
  pub first_by_least :
      (a b : A) → first_by sql key p xs ≡ some a → Mem b xs → p b ≡ true → key a ≤ key b
  first_by_least a b e m h =
      head?-least key _ a b (sql.sort-IsSortedBy A key (select_where p xs)) e (
        Perm.subset (Perm.symm (sql.sort-perm A key (select_where p xs))) b
          (select_where-mem p b xs m h))

  -- There is no row only if none fits.
  pub first_by-none : first_by sql key p xs ≡ none → exists_where p xs ≡ false
  first_by-none e = exists_where-select p xs (nothing _ (sql.sort-perm A key (select_where p xs)) e)
    where
      nothing : {zs : List A} (ys : List A) → Perm ys zs → head? ys ≡ none → zs ≡ []
      nothing [] same h = sym (Perm.nil-eq same)
      nothing (y ∷ ys) same h = cc
