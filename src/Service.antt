-- ===== src/Service.antt =====
-- A service method: it runs transactions one after another and calls the provider and the clock
-- between them. What a transaction has committed stays when a later step raises.
use starkbank_backend_challe.Base.{ℕ, ◌≡◌, refl, ap, subst, arith}
use starkbank_backend_challe.Domain.Errors.{Error, Result, ok, err}
use starkbank_backend_challe.Schema.{Database}
use starkbank_backend_challe.Transaction.{Tx, commit}

-- `W` is the state of everything outside the database: the provider, the clock, other processes.
abbrev pub Action : Type 0 → Type 0 → Type 0
Action W A = Database → W → Result A × Database × W

module _ {W A : Type 0} where
  abbrev pub pure : A → Action W A
  pure a db w = (ok a, db, w)

  abbrev pub raise : Error → Action W A
  raise e db w = (err e, db, w)

  -- One `with engine.begin()` block.
  abbrev pub transact : Tx A → Action W A
  transact m db w = let (r, db') = commit m db in (r, db', w)

  -- `try: r = m() except …`: the handler gets the outcome.
  abbrev pub attempt : Action W A → Action W (Result A)
  attempt m db w = let (r, db', w') = m db w in (ok r, db', w')

infixl 5 ◌>>=◌ ◌>>◌
abbrev pub ◌>>=◌ : {W A B : Type 0} → Action W A → (A → Action W B) → Action W B
◌>>=◌ m f db w =
    let (r, db', w') = m db w in elim r [ ok a ↦ f a db' w' | err e ↦ (err e, db', w') ]

abbrev pub ◌>>◌ : {W A B : Type 0} → Action W A → Action W B → Action W B
m >> k = m >>= λ _. k

-- What a service runs in. The clock and the provider read and change the world; while the provider
-- answers, other processes may commit transactions, which is `meanwhile`; `locked_jobs` and
-- `locked_batches` are the rows that their open transactions hold.
pub record Clock (W : Type 0) : Type 0 where
  pub now : W → ℕ × W

abbrev pub read_clock : {W : Type 0} → Clock W → Action W ℕ
read_clock clock db w = let (t, w') = clock.now w in (ok t, db, w')

-- A call of the provider, which answers or raises.
abbrev pub Call : Type 0 → Type 0 → Type 0
Call W A = W → Result A × W

abbrev pub call : {W A : Type 0} → (W → Database → Database) → Call W A → Action W A
call meanwhile f db w = let (r, w') = f w in (r, meanwhile w' db, w')

module _ {W A B : Type 0} (m : Tx A) (f : A → Action W B) (db : Database) (w : W) where
  pub transact-ok :
      {a : A} {db' : Database} → m db ≡ ok (a, db') → (transact m >>= f) db w ≡ f a db' w
  transact-ok e = ground (arith, e)

  pub transact-err : {e : Error} → m db ≡ err e → (transact m >>= f) db w ≡ (err e, db, w)
  transact-err h = ground (arith, h)

-- Whatever a step returns has the property.
pub record Yields {W A : Type 0} (P : A → Type 0) (m : Action W A) : Type 0 where
  pub yielded :
      (db : Database) (w : W) (a : A) (db' : Database) (w' : W) → m db w ≡ (ok a, db', w') → P a

module _ {W A : Type 0} (P : A → Type 0) where
  pub Yields-pure : (a : A) → P a → Yields {W = W} P (pure a)
  Yields-pure a h = record {
    yielded = λ db w b db' w' e. subst P (ap (λ r. elim r.0 [ ok x ↦ x | err _ ↦ a ]) e) h;
  }

module _ {W A B : Type 0} (Q : A → Type 0) (P : B → Type 0) (m : Action W A)
    (f : A → Action W B) where
  pub Yields-bind : Yields Q m → ((a : A) → Q a → Yields P (f a)) → Yields P (m >>= f)
  Yields-bind first later = record {
    yielded = λ db w b db' w' e. step db w b db' w' (m db w) refl e;
  }
    where
      step :
          (db : Database) (w : W) (b : B) (db' : Database) (w' : W) (r : Result A × Database × W)
          → m db w ≡ r
          → (let (x, db₁, w₁) = r in elim x [ ok a ↦ f a db₁ w₁ | err e ↦ (err e, db₁, w₁) ])
            ≡ (ok b, db', w')
          → P b
      step db w b db' w' (ok a, db₁, w₁) e k =
          (later a (first.yielded db w a db₁ w₁ e)).yielded db₁ w₁ b db' w' k
      step db w b db' w' (err x, db₁, w₁) e k = ground (arith, k)

module _ {W A B : Type 0} (P : B → Type 0) (m : Action W A) (f : A → Action W B) where
  -- What comes first may return anything.
  pub Yields-then : ((a : A) → Yields P (f a)) → Yields P (m >>= f)
  Yields-then later =
      Yields-bind (λ a. Unit {0}) P m f (record { yielded = λ db w a db' w' e. tt })
        (λ a u. later a)
