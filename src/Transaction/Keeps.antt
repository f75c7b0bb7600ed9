-- ===== src/Transaction/Keeps.antt =====
-- A relation between the database before and after a transaction that is kept, by its statements.
use starkbank_backend_challe.Base.{◌≡◌, inl, inr, Bool, true, false, if◌then◌else◌, arith}
use starkbank_backend_challe.Domain.Errors.{ok, Result-cases}
use starkbank_backend_challe.Schema.{Database}
use starkbank_backend_challe.Transaction.{Tx, Statement, pure, gets, savepoint, ◌>>=◌}

module _ (R : Database → Database → Type 0) where
  abbrev pub Keeps : {A : Type 0} → Tx A → Type 0
  Keeps {A = A} m = (db : Database) (a : A) (db' : Database) → m db ≡ ok (a, db') → R db db'

  module _ (same : (db : Database) → R db db) where
    pub Keeps-pure : {A : Type 0} (a : A) → Keeps (pure a)
    Keeps-pure a db a' db' e = ground (arith, same db)

    pub Keeps-gets : {A : Type 0} (f : Database → A) → Keeps (gets f)
    Keeps-gets f db a' db' e = ground (arith, same db)

    pub Keeps-savepoint : (m : Statement) → Keeps m → Keeps (savepoint m)
    Keeps-savepoint m h db a db' e = elim (Result-cases (m db)) [
      | inl ((x, mid), d) ↦ ground (arith, h db x mid d, d)
      | inr (x, d) ↦ ground (arith, d, same db)
    ]

  pub Keeps-if :
      {A : Type 0} (b : Bool) (m n : Tx A) → Keeps m → Keeps n → Keeps (if b then m else n)
  Keeps-if true m n h k = h
  Keeps-if false m n h k = k

  module _ (trans : (x y z : Database) → R x y → R y z → R x z) where
    pub Keeps-bind :
        {A B : Type 0} (m : Tx A) (f : A → Tx B)
        → Keeps m
        → ((a : A) → Keeps (f a))
        → Keeps (m >>= f)
    Keeps-bind m f h k db b db' e = elim (Result-cases (m db)) [
      | inl ((x, mid), d) ↦ trans db mid db' (h db x mid d) (k x mid b db' (rw (◌>>=◌, d) at e))
      | inr (x, d) ↦ ground (arith, d)
    ]
