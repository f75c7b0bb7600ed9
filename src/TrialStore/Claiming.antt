-- ===== src/TrialStore/Claiming.antt =====
-- `claim_due_batch`: which batch a scheduler gets, and what happens to those that have used up
-- their attempts.
use mathlib.Core.Bool.{Bool-set}
use mathlib.Core.HLevel.{Π_prop}
use starkbank_backend_challe.Base.{
  ◌<◌, ◌≡◌, ◌≢◌, refl, sym, ◌∙◌, inl, inr, Bool, true, false, not, ◌&&◌, none, some, List, [], ◌∷◌,
  Mem, All, arith, String, ◌==◌, eq_iff, exists_where, update_where, Bool-cases, Option-cases,
}
use starkbank_backend_challe.Base.Select.{OrderBy, first_by, first_by_fits, All-mem}
use starkbank_backend_challe.Domain.Errors.{ok}
use starkbank_backend_challe.Domain.Models.{BatchClaim, InvoiceBatch}
use starkbank_backend_challe.Schema.{Database, InvoiceBatchRow}
use starkbank_backend_challe.Transaction.{bind_inv}
use starkbank_backend_challe.TrialStore.{
  is_open, is_due_batch, is_exhausted_batch, lease_batch, claimed_batch, degraded_batch,
  degrade_runs, degrade_exhausted_batches, take_batch, claim_due_batch,
}

exists_where-cleared :
    (p : InvoiceBatchRow → Bool) (f : InvoiceBatchRow → InvoiceBatchRow)
    → ((x : InvoiceBatchRow) → p (f x) ≡ false)
    → (rows : List InvoiceBatchRow) → exists_where p (update_where p f rows) ≡ false
exists_where-cleared p f clears [] = refl
exists_where-cleared p f clears (x ∷ rows) =
    ground (arith, clears x, exists_where-cleared p f clears rows)

degrade_runs-batches :
    (db db' : Database) → degrade_runs db ≡ ok (tt, db') → db'.invoice_batches ≡ db.invoice_batches
unfolding degrade_runs
degrade_runs-batches db db' e = ground arith

degrade_none_left :
    (c : BatchClaim) (db db' : Database)
    → degrade_exhausted_batches c db ≡ ok (tt, db')
    → exists_where (is_exhausted_batch c) db'.invoice_batches ≡ false
unfolding degrade_exhausted_batches is_exhausted_batch is_open degraded_batch
degrade_none_left c db db' e =
    elim (Bool-cases (exists_where (is_exhausted_batch c) db.invoice_batches)) [
      | inl some_left ↦
          let rest = rw some_left at e in
          let rows = degrade_runs-batches _ db' rest in
          rw rows (
            exists_where-cleared (is_exhausted_batch c) (degraded_batch c.now) (λ x. ground arith)
              db.invoice_batches)
      | inr clean ↦
          let done = rw clean at e in
          let rows : db'.invoice_batches ≡ db.invoice_batches = ground arith in rw rows clean
    ]

-- When a claim finds no batch, no open batch is left that has used up its attempts: each is degraded.
pub claim_due_batch-none :
    (sql : OrderBy) (locked : InvoiceBatchRow → Bool) (c : BatchClaim) (db db' : Database)
    → claim_due_batch sql locked c db ≡ ok (none, db')
    → exists_where (is_exhausted_batch c) db'.invoice_batches ≡ false
unfolding claim_due_batch take_batch
claim_due_batch-none sql locked c db db' e =
    elim (Option-cases (
      first_by sql (λ r. r.scheduled_at) (λ r. is_due_batch c r && not (locked r))
        db.invoice_batches)) [
          | inl missing ↦
              let (_, mid, e₁, e₂) =
                bind_inv (degrade_exhausted_batches c) _ db (rw missing at e) in
              let same : mid ≡ db' = ground arith in degrade_none_left c db db' (rw same at e₁)
          | inr (r, found) ↦ let done = rw found at e in ground arith
        ]

-- What a claim that finds a batch has done.
claimed_cases :
    (sql : OrderBy) (locked : InvoiceBatchRow → Bool) (c : BatchClaim) (db db' : Database)
    (batch : InvoiceBatch)
    → claim_due_batch sql locked c db ≡ ok (some batch, db')
    → (r : InvoiceBatchRow) × Mem r db.invoice_batches
      × (is_due_batch c r ≡ true)
      × (batch.id ≡ r.id)
      × (db'.invoice_batches ≡ update_where (λ x. x.id == r.id) (lease_batch c) db.invoice_batches)
unfolding claim_due_batch take_batch claimed_batch
claimed_cases sql locked c db db' batch e =
    let free : InvoiceBatchRow → Bool = λ r. is_due_batch c r && not (locked r) in
    elim (Option-cases (first_by sql (λ r. r.scheduled_at) free db.invoice_batches)) [
      | inl missing ↦
          let (_, mid, e₁, e₂) = bind_inv (degrade_exhausted_batches c) _ db (rw missing at e) in
          ground arith
      | inr (r, found) ↦
          let done = rw found at e in
          let fits = first_by_fits sql (λ x. x.scheduled_at) free db.invoice_batches r found in
          (r, fits.1, (let f = fits.0 in ground arith), ground arith, ground arith)
    ]

leased_not_due :
    (c c' : BatchClaim) (x : InvoiceBatchRow)
    → c'.now < c.lease_until
    → is_due_batch c' (lease_batch c x) ≡ false
unfolding is_due_batch is_open lease_batch
leased_not_due c c' x h = ground arith

leased_batches :
    (c c' : BatchClaim) (id : String) (rows : List InvoiceBatchRow)
    → c'.now < c.lease_until
    → All
        (λ x. x.id ≡ id → is_due_batch c' x ≡ false)
        (update_where (λ x. x.id == id) (lease_batch c) rows)
unfolding lease_batch
leased_batches c c' id [] h = tt
leased_batches c c' id (x ∷ rows) h =
    (ground (arith, eq_iff x.id id, leased_not_due c c' x h), leased_batches c c' id rows h)

-- When a claim has returned a batch, the next claim, made before the lease of the first runs out
-- and whatever rows are locked, does not return the same batch.
pub claim_due_batch_exclusive :
    (sql : OrderBy) (locked locked' : InvoiceBatchRow → Bool) (c c' : BatchClaim)
    (db db' db'' : Database) (batch batch' : InvoiceBatch)
    → claim_due_batch sql locked c db ≡ ok (some batch, db')
    → c'.now < c.lease_until
    → claim_due_batch sql locked' c' db' ≡ ok (some batch', db'')
    → batch'.id ≢ batch.id
claim_due_batch_exclusive sql locked locked' c c' db db' db'' batch batch' e h e' same =
    let (r, stored, due, id, rows) = claimed_cases sql locked c db db' batch e in
    let (r', stored', due', id', rows') = claimed_cases sql locked' c' db' db'' batch' e' in
    let held =
      All-mem (λ (y : InvoiceBatchRow). y.id ≡ r.id → is_due_batch c' y ≡ false) r' _
        (λ y. Π_prop (λ _. Bool-set _ _)) (leased_batches c c' r.id db.invoice_batches h)
        (rw rows at stored') in
    cc (held (sym id' ∙ same ∙ id), due')
