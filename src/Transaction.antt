-- ===== src/Transaction.antt =====
-- A transaction on the database: `with engine.begin() as connection`. What the block returns is
-- committed; an exception that leaves the block rolls everything back.
pub mod Keeps
use starkbank_backend_challe.Base.{◌≡◌, refl, inl, inr, Bool, true, false, arith}
use starkbank_backend_challe.Domain.Errors.{Error, Result, ok, err, integrity, Result-cases}
use starkbank_backend_challe.Schema.{
  Database, TrialRunRow, InvoiceBatchRow, InvoiceDraftRow, OwnedInvoiceRow, WebhookEventRow,
  TransferJobRow, trial_runs_constraints, invoice_batches_constraints, invoice_drafts_constraints,
  owned_invoices_constraints, webhook_events_constraints, transfer_jobs_constraints,
}
use starkbank_backend_challe.Base.{List}

abbrev pub Tx : Type 0 → Type 0
Tx A = Database → Result (A × Database)

module _ {A : Type 0} where
  abbrev pub pure : A → Tx A
  pure a db = ok (a, db)

  abbrev pub raise : Error → Tx A
  raise e db = err e

  abbrev pub gets : (Database → A) → Tx A
  gets f db = ok (f db, db)

infixl 5 ◌>>=◌ ◌>>◌
abbrev pub ◌>>=◌ : {A B : Type 0} → Tx A → (A → Tx B) → Tx B
◌>>=◌ m f db = elim (m db) [ ok (a, db') ↦ f a db' | err e ↦ err e ]

abbrev pub ◌>>◌ : {A B : Type 0} → Tx A → Tx B → Tx B
m >> k = m >>= λ _. k

abbrev pub Statement : Type 0
Statement = Tx (Unit {0})

-- `try: with connection.begin_nested(): …` with `except IntegrityError: return False`: whether
-- the statement was kept. A refused one is rolled back to the savepoint.
abbrev pub savepoint : Statement → Tx Bool
savepoint m db = elim (m db) [
  | ok (_, db') ↦ ok (true, db')
  | err integrity ↦ ok (false, db)
  | err e ↦ err e
]

-- The outcome and the database after the block.
abbrev pub commit : {A : Type 0} → Tx A → Database → Result A × Database
commit m db = elim (m db) [ ok (a, db') ↦ (ok a, db') | err e ↦ (err e, db) ]

pub commit_ok :
    {A : Type 0} (m : Tx A) (db : Database) {a : A} {db' : Database}
    → m db ≡ ok (a, db')
    → commit m db ≡ (ok a, db')
commit_ok m db e = rw (e, commit)

-- A statement leaves a new table, and the database refuses it where the constraints fail.
abbrev pub checked : Bool → Database → Result (Unit {0} × Database)
checked true db = ok (tt, db)
checked false db = err integrity

abbrev pub write_trial_runs : (List TrialRunRow → List TrialRunRow) → Statement
write_trial_runs f db =
    checked (trial_runs_constraints (f db.trial_runs)) (record db { trial_runs = f db.trial_runs })

abbrev pub write_invoice_batches : (List InvoiceBatchRow → List InvoiceBatchRow) → Statement
write_invoice_batches f db =
    checked (invoice_batches_constraints (f db.invoice_batches))
      (record db { invoice_batches = f db.invoice_batches })

abbrev pub write_invoice_drafts : (List InvoiceDraftRow → List InvoiceDraftRow) → Statement
write_invoice_drafts f db =
    checked (invoice_drafts_constraints (f db.invoice_drafts))
      (record db { invoice_drafts = f db.invoice_drafts })

abbrev pub write_owned_invoices : (List OwnedInvoiceRow → List OwnedInvoiceRow) → Statement
write_owned_invoices f db =
    checked (owned_invoices_constraints (f db.owned_invoices))
      (record db { owned_invoices = f db.owned_invoices })

abbrev pub write_webhook_events : (List WebhookEventRow → List WebhookEventRow) → Statement
write_webhook_events f db =
    checked (webhook_events_constraints (f db.webhook_events))
      (record db { webhook_events = f db.webhook_events })

abbrev pub write_transfer_jobs : (List TransferJobRow → List TransferJobRow) → Statement
write_transfer_jobs f db =
    checked (transfer_jobs_constraints (f db.transfer_jobs))
      (record db { transfer_jobs = f db.transfer_jobs })

-- A statement that writes no column under a constraint cannot be refused.
abbrev pub touch_trial_runs : (List TrialRunRow → List TrialRunRow) → Statement
touch_trial_runs f db = ok (tt, record db { trial_runs = f db.trial_runs })

abbrev pub touch_invoice_batches : (List InvoiceBatchRow → List InvoiceBatchRow) → Statement
touch_invoice_batches f db = ok (tt, record db { invoice_batches = f db.invoice_batches })

abbrev pub touch_invoice_drafts : (List InvoiceDraftRow → List InvoiceDraftRow) → Statement
touch_invoice_drafts f db = ok (tt, record db { invoice_drafts = f db.invoice_drafts })

abbrev pub touch_owned_invoices : (List OwnedInvoiceRow → List OwnedInvoiceRow) → Statement
touch_owned_invoices f db = ok (tt, record db { owned_invoices = f db.owned_invoices })

abbrev pub touch_webhook_events : (List WebhookEventRow → List WebhookEventRow) → Statement
touch_webhook_events f db = ok (tt, record db { webhook_events = f db.webhook_events })

abbrev pub touch_transfer_jobs : (List TransferJobRow → List TransferJobRow) → Statement
touch_transfer_jobs f db = ok (tt, record db { transfer_jobs = f db.transfer_jobs })

pub bind_inv :
    {A B : Type 0} (m : Tx A) (f : A → Tx B) (db : Database) {b : B} {db' : Database}
    → (m >>= f) db ≡ ok (b, db')
    → (a : A) × (mid : Database) × (m db ≡ ok (a, mid)) × (f a mid ≡ ok (b, db'))
bind_inv m f db e = elim (Result-cases (m db)) [
  | inl ((a, mid), d) ↦ (a, mid, d, rw (◌>>=◌, d) at e)
  | inr (x, d) ↦ ground (arith, d)
]

pub bind_ok :
    {A B : Type 0} (m : Tx A) (f : A → Tx B) (db : Database) {a : A} {mid : Database}
    → m db ≡ ok (a, mid)
    → (m >>= f) db ≡ f a mid
bind_ok m f db e = rw (◌>>=◌, e) refl
