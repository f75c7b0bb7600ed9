-- ===== src/Base/Updates.antt =====
-- What an UPDATE does to the rows that a statement finds, and two states of one table.
use mathlib.Core.Path.{◌≡◌, refl}
use mathlib.Core.Bool.{Bool, true, false, not, ◌&&◌, ◌||◌}
use mathlib.Core.Option.{some}
use mathlib.Core.List.{List, [], ◌∷◌, ◌++◌}
use native.Mathlib.Omega.{arith}
use starkbank_backend_challe.Base.Rows.{
  take, select_where, update_where, first_where, exists_where, every, RowByRow,
}

module _ {ℓ} {A : Type ℓ} where
  pub exists_where-update :
      (q p : A → Bool) (f : A → A)
      → ((x : A) → q (f x) ≡ q x)
      → (xs : List A) → exists_where q (update_where p f xs) ≡ exists_where q xs
  exists_where-update q p f same [] = refl
  exists_where-update q p f same (x ∷ xs) =
      ground (arith, same x, exists_where-update q p f same xs)

  pub RowByRow-compose {κ μ ν} :
      (R : A → A → Type κ) (S : A → A → Type μ) (T : A → A → Type ν)
      → ((x y z : A) → R x y → S y z → T x z)
      → (xs ys zs : List A) → RowByRow R xs ys
      → RowByRow S ys zs
      → RowByRow T xs zs
  RowByRow-compose R S T step [] [] [] h k = tt
  RowByRow-compose R S T step [] [] (z ∷ zs) h k = absurd (k tt)
  RowByRow-compose R S T step [] (y ∷ ys) zs h k = absurd (h tt)
  RowByRow-compose R S T step (x ∷ xs) [] zs h k = absurd (h tt)
  RowByRow-compose R S T step (x ∷ xs) (y ∷ ys) [] h k = absurd (k tt)
  RowByRow-compose R S T step (x ∷ xs) (y ∷ ys) (z ∷ zs) h k =
      (step x y z h.0 k.0, RowByRow-compose R S T step xs ys zs h.1 k.1)

  pub RowByRow-trans {κ} :
      (R : A → A → Type κ)
      → ((x y z : A) → R x y → R y z → R x z)
      → (xs ys zs : List A) → RowByRow R xs ys
      → RowByRow R ys zs
      → RowByRow R xs zs
  RowByRow-trans R trans = RowByRow-compose R R R trans

  pub RowByRow-map {κ μ} :
      (R : A → A → Type κ) (S : A → A → Type μ)
      → ((x y : A) → R x y → S x y)
      → (xs ys : List A) → RowByRow R xs ys
      → RowByRow S xs ys
  RowByRow-map R S f [] [] h = tt
  RowByRow-map R S f [] (y ∷ ys) h = absurd (h tt)
  RowByRow-map R S f (x ∷ xs) [] h = absurd (h tt)
  RowByRow-map R S f (x ∷ xs) (y ∷ ys) h = (f x y h.0, RowByRow-map R S f xs ys h.1)

  pub RowByRow-update_split {κ} :
      (R : A → A → Type κ) (p : A → Bool) (f : A → A)
      → ((x : A) → p x ≡ false → R x x)
      → ((x : A) → p x ≡ true → R x (f x))
      → (xs : List A) → RowByRow R xs (update_where p f xs)
  RowByRow-update_split R p f same step [] = tt
  RowByRow-update_split R p f same step (x ∷ xs) =
      (ground (arith, same x, step x), RowByRow-update_split R p f same step xs)

  -- An UPDATE whose rows all fit a test.
  pub RowByRow-update_fitting {κ} :
      (R : A → A → Type κ) (p q : A → Bool) (f : A → A)
      → ((x : A) → p x ≡ false → R x x)
      → ((x : A) → p x ≡ true → q x ≡ true → R x (f x))
      → (xs : List A) → every (λ x. not (p x) || q x) xs ≡ true
      → RowByRow R xs (update_where p f xs)
  RowByRow-update_fitting R p q f same step [] h = tt
  RowByRow-update_fitting R p q f same step (x ∷ xs) h =
      (ground (arith, same x, step x), RowByRow-update_fitting R p q f same step xs (ground arith))

  pub RowByRow-update_every {κ} :
      (R : A → A → Type κ) (p q : A → Bool) (f : A → A)
      → ((x : A) → R x x)
      → ((x : A) → p x ≡ true → q x ≡ true → R x (f x))
      → (xs : List A) → every (λ x. not (p x) || q x) xs ≡ true
      → RowByRow R xs (update_where p f xs)
  RowByRow-update_every R p q f same = RowByRow-update_fitting R p q f (λ x _. same x)

  -- The row that is found first fits any test that it passes besides.
  pub first_where_and :
      (p q : A → Bool) (xs : List A) (a : A)
      → first_where p xs ≡ some a
      → q a ≡ true
      → exists_where (λ x. p x && q x) xs ≡ true
  first_where_and p q [] a e h = cc
  first_where_and p q (x ∷ xs) a e h = ground (arith, first_where_and p q xs a)

  pub first_where-append :
      (p : A → Bool) (xs : List A) (a : A)
      → exists_where p xs ≡ false
      → p a ≡ true
      → first_where p (xs ++ a ∷ []) ≡ some a
  first_where-append p [] a h k = ground (arith, k)
  first_where-append p (x ∷ xs) a h k = ground (arith, first_where-append p xs a)

  pub exists_where-updated :
      (p q : A → Bool) (f : A → A)
      → ((x : A) → p x ≡ true → q (f x) ≡ true)
      → (xs : List A) → exists_where p xs ≡ true
      → exists_where q (update_where p f xs) ≡ true
  exists_where-updated p q f step [] h = cc
  exists_where-updated p q f step (x ∷ xs) h =
      ground (arith, step x, exists_where-updated p q f step xs)

  pub exists_where-selected :
      (p q : A → Bool) (a : A) (rest xs : List A)
      → take 2 (select_where p xs) ≡ a ∷ rest
      → q a ≡ true
      → exists_where q xs ≡ true
  exists_where-selected p q a rest [] h k = cc
  exists_where-selected p q a rest (x ∷ xs) h k =
      ground (arith, exists_where-selected p q a rest xs)

  pub exists_where-RowByRow {κ} :
      (R : A → A → Type κ) (p : A → Bool)
      → ((x y : A) → R x y → p x ≡ true → p y ≡ true)
      → (xs ys : List A) → RowByRow R xs ys
      → exists_where p xs ≡ true
      → exists_where p ys ≡ true
  exists_where-RowByRow R p step [] [] h k = k
  exists_where-RowByRow R p step [] (y ∷ ys) h k = absurd (h tt)
  exists_where-RowByRow R p step (x ∷ xs) [] h k = absurd (h tt)
  exists_where-RowByRow R p step (x ∷ xs) (y ∷ ys) h k =
      ground (arith, step x y h.0, exists_where-RowByRow R p step xs ys h.1)

  pub first_where-exists :
      (p : A → Bool) (xs : List A) (a : A) → first_where p xs ≡ some a → exists_where p xs ≡ true
  first_where-exists p [] a e = cc
  first_where-exists p (x ∷ xs) a e = ground (arith, first_where-exists p xs a)
