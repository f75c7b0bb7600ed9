-- ===== src/Review/Distinct.antt =====
-- persistence/review_store.py: no join of the listings gives a row twice, because it goes to a key.
use mathlib.Core.List.{Pairwise, Pairwise-cons}
use mathlib.Core.HLevel.{¬_prop}
use starkbank_backend_challe.Base.{
  ◌≡◌, refl, ◌≢◌, Bool, true, false, Option, some, List, [], ◌∷◌, ◌++◌, map, String, holds, arith,
  select_where, exists_where, taken, is_unique, Bool-cases, inl, inr, eq_iff, All, All-append,
  holds-eq,
}
use starkbank_backend_challe.Base.Select.{All-mem}
use starkbank_backend_challe.Review.Views.{inner_join, outer_join, or_null}

-- No row, or one.
pub data AtMostOne {A : Type 0} : List A → Type 0 where
  no_row : AtMostOne []
  one_row : {x : A} → AtMostOne (x ∷ [])

module _ {A : Type 0} (id : A → String) where
  abbrev pub DistinctBy : List A → Type 0
  DistinctBy [] = Unit
  DistinctBy (x ∷ xs) = All (λ y. id x ≢ id y) xs × DistinctBy xs

  pub DistinctBy-Pairwise : (xs : List A) → DistinctBy xs → Pairwise (λ (x y : A). id x ≢ id y) xs
  DistinctBy-Pairwise [] h = Pairwise.nil
  DistinctBy-Pairwise (x ∷ xs) h =
      Pairwise-cons.1
        (λ y m. All-mem (λ z. id x ≢ id z) y xs (λ z. ¬_prop) h.0 m, DistinctBy-Pairwise xs h.1)

  not_there :
      (v : String) (xs : List A)
      → exists_where (λ y. holds (some (id y)) v) xs ≡ false
      → All (λ y. v ≢ id y) xs
  not_there v [] h = tt
  not_there v (x ∷ xs) h = (λ e. ground (arith, eq_iff (id x) v, e), not_there v xs (ground arith))

  pub is_unique-DistinctBy : (xs : List A) → is_unique (λ x. some (id x)) xs ≡ true → DistinctBy xs
  is_unique-DistinctBy [] h = tt
  is_unique-DistinctBy (x ∷ xs) h =
      (not_there (id x) xs (ground arith), is_unique-DistinctBy xs (ground arith))

module _ {A : Type 0} where
  select_where-none :
      (p : A → Bool) (xs : List A) → exists_where p xs ≡ false → select_where p xs ≡ []
  select_where-none p [] h = refl
  select_where-none p (x ∷ xs) h = ground (arith, select_where-none p xs)

  first_and_only :
      (key : A → Option String) (x : A) (xs : List A) (v : String)
      → is_unique key (x ∷ xs) ≡ true
      → key x ≡ some v
      → select_where (λ y. holds (key y) v) xs ≡ []
  first_and_only key x xs v h e =
      let free : taken key (key x) xs ≡ false = ground arith in
      select_where-none (λ y. holds (key y) v) xs (rw e at free)

  -- A lookup by a unique column gives no row or one.
  pub select_where-AtMostOne :
      (key : A → Option String) (v : String) (xs : List A)
      → is_unique key xs ≡ true
      → AtMostOne (select_where (λ x. holds (key x) v) xs)
  select_where-AtMostOne key v [] h = no_row
  select_where-AtMostOne key v (x ∷ xs) h = elim (Bool-cases (holds (key x) v)) [
    | inl e ↦ rw (e, first_and_only key x xs v h (holds-eq (key x) v e)) one_row
    | inr e ↦ rw e (select_where-AtMostOne key v xs (ground arith))
  ]

module _ {A B : Type 0} where
  All-map : (P : B → Type 0) (f : A → B) (xs : List A) → All (λ x. P (f x)) xs → All P (map f xs)
  All-map P f [] h = tt
  All-map P f (x ∷ xs) h = (h.0, All-map P f xs h.1)

  pub DistinctBy-map :
      (id : B → String) (f : A → B) (xs : List A)
      → DistinctBy (λ x. id (f x)) xs
      → DistinctBy id (map f xs)
  DistinctBy-map id f [] h = tt
  DistinctBy-map id f (x ∷ xs) h =
      (All-map (λ y. id (f x) ≢ id y) f xs h.0, DistinctBy-map id f xs h.1)

  All-same :
      (P : A → Type 0) (x : A) (ys : List B)
      → P x
      → All (λ (z : A × B). P z.0) (map (λ y. (x, y)) ys)
  All-same P x [] h = tt
  All-same P x (y ∷ ys) h = (h, All-same P x ys h)

module _ {A B : Type 0} (on : A → B → Bool) (ys : List B) where
  All-inner_join :
      (P : A → Type 0) (xs : List A) → All P xs → All (λ (z : A × B). P z.0) (inner_join on xs ys)
  All-inner_join P [] h = tt
  All-inner_join P (x ∷ xs) h =
      All-append (λ (z : A × B). P z.0) (map (λ y. (x, y)) (select_where (on x) ys))
        (inner_join on xs ys) (All-same P x (select_where (on x) ys) h.0) (All-inner_join P xs h.1)

  All-or_null :
      (P : A → Type 0) (x : A) (sel : List B)
      → P x
      → All (λ (z : A × Option B). P z.0) (or_null on x sel)
  All-or_null P x [] h = (h, tt)
  All-or_null P x (y ∷ sel) h = (h, All_same_null sel)
    where
      All_same_null :
          (sel : List B) → All (λ (z : A × Option B). P z.0) (map (λ y. (x, some y)) sel)
      All_same_null [] = tt
      All_same_null (z ∷ sel) = (h, All_same_null sel)

  All-outer_join :
      (P : A → Type 0) (xs : List A)
      → All P xs
      → All (λ (z : A × Option B). P z.0) (outer_join on xs ys)
  All-outer_join P [] h = tt
  All-outer_join P (x ∷ xs) h =
      All-append (λ (z : A × Option B). P z.0) (or_null on x (select_where (on x) ys))
        (outer_join on xs ys) (All-or_null P x (select_where (on x) ys) h.0)
        (All-outer_join P xs h.1)

  module _ (id : A → String) (once : (x : A) → AtMostOne (select_where (on x) ys)) where
    inner_step :
        (x : A) (sel : List B) (rest : List (A × B))
        → AtMostOne sel
        → All (λ (z : A × B). id x ≢ id z.0) rest
        → DistinctBy (λ (z : A × B). id z.0) rest
        → DistinctBy (λ (z : A × B). id z.0) (map (λ y. (x, y)) sel ++ rest)
    inner_step x sel rest no_row new h = h
    inner_step x sel rest one_row new h = (new, h)

    pub DistinctBy-inner_join :
        (xs : List A) → DistinctBy id xs → DistinctBy (λ (z : A × B). id z.0) (inner_join on xs ys)
    DistinctBy-inner_join [] h = tt
    DistinctBy-inner_join (x ∷ xs) h =
        inner_step x (select_where (on x) ys) (inner_join on xs ys) (once x)
          (All-inner_join (λ y. id x ≢ id y) xs h.0) (DistinctBy-inner_join xs h.1)

    outer_step :
        (x : A) (sel : List B) (rest : List (A × Option B))
        → AtMostOne sel
        → All (λ (z : A × Option B). id x ≢ id z.0) rest
        → DistinctBy (λ (z : A × Option B). id z.0) rest
        → DistinctBy (λ (z : A × Option B). id z.0) (or_null on x sel ++ rest)
    outer_step x sel rest no_row new h = (new, h)
    outer_step x sel rest one_row new h = (new, h)

    pub DistinctBy-outer_join :
        (xs : List A)
        → DistinctBy id xs
        → DistinctBy (λ (z : A × Option B). id z.0) (outer_join on xs ys)
    DistinctBy-outer_join [] h = tt
    DistinctBy-outer_join (x ∷ xs) h =
        outer_step x (select_where (on x) ys) (outer_join on xs ys) (once x)
          (All-outer_join (λ y. id x ≢ id y) xs h.0) (DistinctBy-outer_join xs h.1)
