-- ===== src/Base/Unique.antt =====
-- UNIQUE and CHECK constraints under INSERT and UPDATE.
use Prim.Native.String.{String}
use mathlib.Core.Path.{◌≡◌, refl, subst}
use mathlib.Core.Bool.{Bool, true, false, not, ◌&&◌, ◌||◌}
use mathlib.Core.Option.{Option, none, some}
use mathlib.Core.List.{List, [], ◌∷◌, ◌++◌}
use native.Mathlib.Omega.{arith}
use mathlib.Core.Logic.{inl, inr}
use text.Mathlib.Text.{◌==◌}
use text.Mathlib.TextEquality.{eq_iff}
use starkbank_backend_challe.Base.Tests.{holds, Bool-cases, Option-cases}
use starkbank_backend_challe.Base.Rows.{
  update_where, update_where_missing, exists_where, count_where, taken, is_unique, every, All,
}

module _ {ℓ} {A : Type ℓ} where
  pub taken-update_same :
      (key : A → Option String) (p : A → Bool) (f : A → A)
      → ((x : A) → key (f x) ≡ key x)
      → (o : Option String) (xs : List A) → taken key o (update_where p f xs) ≡ taken key o xs
  taken-update_same key p f same none xs = refl
  taken-update_same key p f same (some v) [] = refl
  taken-update_same key p f same (some v) (x ∷ xs) =
      ground (arith, same x, taken-update_same key p f same (some v) xs)

  -- An UPDATE that leaves the column alone keeps it unique.
  pub is_unique-update_same :
      (key : A → Option String) (p : A → Bool) (f : A → A)
      → ((x : A) → key (f x) ≡ key x)
      → (xs : List A) → is_unique key (update_where p f xs) ≡ is_unique key xs
  is_unique-update_same key p f same [] = refl
  is_unique-update_same key p f same (x ∷ xs) = ground (
    arith,
    same x,
    taken-update_same key p f same (key x) xs,
    is_unique-update_same key p f same xs,
  )

  taken-update_null :
      (key : A → Option String) (p : A → Bool) (f : A → A)
      → ((x : A) → key (f x) ≡ none)
      → (o : Option String) (xs : List A) → taken key o xs ≡ false
      → taken key o (update_where p f xs) ≡ false
  taken-update_null key p f null none xs h = refl
  taken-update_null key p f null (some v) [] h = refl
  taken-update_null key p f null (some v) (x ∷ xs) h =
      ground (arith, null x, taken-update_null key p f null (some v) xs)

  -- So does one that writes NULL into it.
  pub is_unique-update_null :
      (key : A → Option String) (p : A → Bool) (f : A → A)
      → ((x : A) → key (f x) ≡ none)
      → (xs : List A) → is_unique key xs ≡ true
      → is_unique key (update_where p f xs) ≡ true
  is_unique-update_null key p f null [] h = refl
  is_unique-update_null key p f null (x ∷ xs) h = ground (
    arith,
    null x,
    taken-update_null key p f null (key x) xs,
    is_unique-update_null key p f null xs,
  )

  taken-append :
      (key : A → Option String) (o : Option String) (xs : List A) (a : A)
      → taken key o (xs ++ a ∷ []) ≡ (taken key o xs || taken key o (a ∷ []))
  taken-append key none xs a = refl
  taken-append key (some v) [] a = refl
  taken-append key (some v) (x ∷ xs) a = ground (arith, taken-append key (some v) xs a)

  taken-cons :
      (key : A → Option String) (o : Option String) (x : A) (xs : List A)
      → taken key o (x ∷ xs) ≡ (taken key o (x ∷ []) || taken key o xs)
  taken-cons key none x xs = refl
  taken-cons key (some v) x xs = ground arith

  taken_comm :
      (key : A → Option String) (x a : A) → taken key (key x) (a ∷ []) ≡ taken key (key a) (x ∷ [])
  taken_comm key x a = elim (Option-cases (key x)) [
    | inl e ↦ elim (Option-cases (key a)) [
      | inl d ↦ rw (e, d) refl
      | inr (w, d) ↦ rw (e, d) (ground (arith, e))
    ]
    | inr (v, e) ↦ elim (Option-cases (key a)) [
      | inl d ↦ rw (e, d) (ground (arith, d))
      | inr (w, d) ↦ rw (e, d) (ground (arith, d, e, eq_iff v w, eq_iff w v))
    ]
  ]

  -- An INSERT keeps the column unique exactly when no row has the new row's value.
  pub is_unique-append :
      (key : A → Option String) (xs : List A) (a : A)
      → is_unique key (xs ++ a ∷ []) ≡ (is_unique key xs && not (taken key (key a) xs))
  is_unique-append key [] a = elim (Option-cases (key a)) [
    | inl d ↦ rw d refl
    | inr (w, d) ↦ rw d refl
  ]
  is_unique-append key (x ∷ xs) a = ground (
    arith,
    taken-append key (key x) xs a,
    taken-cons key (key a) x xs,
    taken_comm key x a,
    is_unique-append key xs a,
  )

  pub every-append :
      (p : A → Bool) (xs : List A) (a : A) → every p (xs ++ a ∷ []) ≡ (every p xs && p a)
  every-append p [] a = ground arith
  every-append p (x ∷ xs) a = ground (arith, every-append p xs a)

  -- A CHECK on columns that the UPDATE leaves alone still holds.
  pub every-update_same :
      (q p : A → Bool) (f : A → A)
      → ((x : A) → q (f x) ≡ q x)
      → (xs : List A) → every q (update_where p f xs) ≡ every q xs
  every-update_same q p f same [] = refl
  every-update_same q p f same (x ∷ xs) = ground (arith, same x, every-update_same q p f same xs)

  pub count_where-none :
      (p : A → Bool) (xs : List A) → exists_where p xs ≡ false → count_where p xs ≡ 0
  count_where-none p [] h = refl
  count_where-none p (x ∷ xs) h = ground (arith, count_where-none p xs)

  pub update_where_agree :
      (p q : A → Bool) (f : A → A) (xs : List A)
      → All (λ x. p x ≡ q x) xs
      → update_where p f xs ≡ update_where q f xs
  update_where_agree p q f [] h = refl
  update_where_agree p q f (x ∷ xs) h = ground (arith, h.0, update_where_agree p q f xs h.1)

  pub count_where_agree :
      (p q : A → Bool) (xs : List A) → All (λ x. p x ≡ q x) xs → count_where p xs ≡ count_where q xs
  count_where_agree p q [] h = refl
  count_where_agree p q (x ∷ xs) h = ground (arith, h.0, count_where_agree p q xs h.1)

  -- At most one row has a value of a unique column, so one that is found is the only one.
  pub count_where_unique :
      (key : A → Option String) (v : String) (xs : List A)
      → is_unique key xs ≡ true
      → exists_where (λ x. holds (key x) v) xs ≡ true
      → count_where (λ x. holds (key x) v) xs ≡ 1
  count_where_unique key v [] u h = cc
  count_where_unique key v (x ∷ xs) u h = elim (Option-cases (key x)) [
    | inl e ↦ ground (arith, e, count_where_unique key v xs)
    | inr (w, e) ↦
        let rest = count_where-none (λ y. holds (key y) v) xs in
        let only : not (taken key (some w) xs) && is_unique key xs ≡ true = rw e at u in
        elim (Bool-cases (w == v)) [
          | inl hit ↦
              let same : w ≡ v = (eq_iff w v).0 hit in
              rw (e, hit)
                (ground (
                  arith,
                  rest,
                  subst (λ (t : String). taken key (some t) xs ≡ false) same (ground arith),
                ))
          | inr miss ↦ rw (e, miss) (ground (arith, e, count_where_unique key v xs))
        ]
  ]

  every_missing :
      (key : A → Option String) (v : String) (q : A → Bool) (xs : List A)
      → exists_where (λ x. holds (key x) v) xs ≡ false
      → every (λ x. not (holds (key x) v) || q x) xs ≡ true
  every_missing key v q [] h = refl
  every_missing key v q (x ∷ xs) h = ground (arith, every_missing key v q xs)

  exists_where_and :
      (p q : A → Bool) (xs : List A)
      → exists_where p xs ≡ false
      → exists_where (λ x. p x && q x) xs ≡ false
  exists_where_and p q [] h = refl
  exists_where_and p q (x ∷ xs) h = ground (arith, exists_where_and p q xs)

  -- What the one row with a value of a unique column satisfies, every row with that value does.
  pub every_unique :
      (key : A → Option String) (v : String) (q : A → Bool) (xs : List A)
      → is_unique key xs ≡ true
      → exists_where (λ x. holds (key x) v && q x) xs ≡ true
      → every (λ x. not (holds (key x) v) || q x) xs ≡ true
  every_unique key v q [] u h = refl
  every_unique key v q (x ∷ xs) u h = elim (Option-cases (key x)) [
    | inl e ↦ ground (arith, e, every_unique key v q xs)
    | inr (w, e) ↦
        let only : not (taken key (some w) xs) && is_unique key xs ≡ true = rw e at u in
        elim (Bool-cases (w == v)) [
          | inl hit ↦
              let free : exists_where (λ y. holds (key y) v) xs ≡ false =
                subst (λ (t : String). taken key (some t) xs ≡ false) ((eq_iff w v).0 hit)
                  (ground arith) in
              ground (
                arith,
                e,
                every_missing key v q xs free,
                exists_where_and (λ y. holds (key y) v) q xs free,
              )
          | inr miss ↦ ground (arith, e, every_unique key v q xs)
        ]
  ]

  exists_where-and :
      (p q : A → Bool) (xs : List A)
      → exists_where p xs ≡ false
      → exists_where (λ x. not (p x) && q x) xs ≡ false
      → exists_where q xs ≡ false
  exists_where-and p q [] h k = refl
  exists_where-and p q (x ∷ xs) h k = ground (arith, exists_where-and p q xs)

  taken-update_new :
      (key : A → Option String) (p : A → Bool) (f : A → A) (new w : String)
      → ((x : A) → key (f x) ≡ some new)
      → (w == new) ≡ false
      → (xs : List A) → taken key (some w) xs ≡ false
      → taken key (some w) (update_where p f xs) ≡ false
  taken-update_new key p f new w writes other [] h = refl
  taken-update_new key p f new w writes other (x ∷ xs) h =
      ground (
        arith,
        writes x,
        eq_iff w new,
        eq_iff new w,
        taken-update_new key p f new w writes other xs,
      )

  -- An UPDATE of the row with a name writes a value that no other row has.
  pub is_unique-update_one :
      (key : A → Option String) (name : A → String) (v new : String) (f : A → A)
      → ((x : A) → key (f x) ≡ some new)
      → (xs : List A) → is_unique (λ x. some (name x)) xs ≡ true
      → exists_where (λ x. not (name x == v) && holds (key x) new) xs ≡ false
      → is_unique key xs ≡ true
      → is_unique key (update_where (λ x. name x == v) f xs) ≡ true
  is_unique-update_one key name v new f writes [] names free u = refl
  is_unique-update_one key name v new f writes (x ∷ xs) names free u =
      elim (Bool-cases (name x == v)) [
        | inl hit ↦
            let alone : exists_where (λ y. name y == v) xs ≡ false =
              subst (λ (t : String). exists_where (λ y. name y == t) xs ≡ false)
                ((eq_iff (name x) v).0 hit) (ground (arith, names)) in
            let unused = exists_where-and (λ y. name y == v) (λ y. holds (key y) new) xs alone in
            ground
              (arith, hit, writes x, unused, update_where_missing (λ y. name y == v) f xs alone)
        | inr miss ↦
            let rest = is_unique-update_one key name v new f writes xs in
            elim (Option-cases (key x)) [
              | inl e ↦ ground (arith, miss, e, rest)
              | inr (w, e) ↦
                  let other : (w == new) ≡ false = ground (arith, free, miss, e) in
                  let kept = taken-update_new key (λ y. name y == v) f new w writes other xs in
                  ground (arith, miss, e, rest, kept)
            ]
      ]
