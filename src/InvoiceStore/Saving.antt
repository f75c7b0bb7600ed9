-- ===== src/InvoiceStore/Saving.antt =====
-- Saving the drafts of a batch again, after a tick that did not finish.
use starkbank_backend_challe.Base.{
  ◌≡◌, refl, ap, subst, inl, inr, Bool, true, false, not, ◌&&◌, ◌||◌, List, [], ◌∷◌, ◌++◌, map,
  String, ◌==◌, eq_refl, arith, All, exists_where, select_where, Bool-cases,
}
use starkbank_backend_challe.Domain.Errors.{ok}
use starkbank_backend_challe.Domain.Models.{InvoiceDraft}
use starkbank_backend_challe.Schema.{Database, InvoiceDraftRow}
use starkbank_backend_challe.InvoiceStore.{draft_row, new_rows, insert_rows, save}

exists_where-append :
    {A : Type 0} (p : A → Bool) (xs ys : List A)
    → exists_where p (xs ++ ys) ≡ (exists_where p xs || exists_where p ys)
exists_where-append p [] ys = refl
exists_where-append p (x ∷ xs) ys = ground (arith, exists_where-append p xs ys)

append_nil : {A : Type 0} (xs : List A) → xs ++ [] ≡ xs
append_nil [] = refl
append_nil (x ∷ xs) = ap (λ ys. x ∷ ys) (append_nil xs)

select_where-none :
    {A : Type 0} (p : A → Bool) (xs : List A) → All (λ x. p x ≡ false) xs → select_where p xs ≡ []
select_where-none p [] h = refl
select_where-none p (x ∷ xs) h = ground (arith, select_where-none p xs, h.0, h.1)

module _ (batch_id : String) where
  abbrev has : List InvoiceDraftRow → InvoiceDraft → Bool
  has rows draft = exists_where (λ r. r.batch_id == batch_id && r.id == draft.id) rows

  -- The drafts that are missing in the table.
  abbrev missing : List InvoiceDraftRow → List InvoiceDraft → List InvoiceDraftRow
  missing rows drafts = map draft_row (select_where (λ d. not (has rows d)) drafts)

  has-cons :
      (row : InvoiceDraftRow) (table rows : List InvoiceDraftRow) (drafts : List InvoiceDraft)
      → All (λ d. has table d || has rows d ≡ true) drafts
      → All (λ d. has table d || has (row ∷ rows) d ≡ true) drafts
  has-cons row table rows [] h = tt
  has-cons row table rows (d ∷ drafts) h =
      (let first = h.0 in ground arith, has-cons row table rows drafts h.1)

  missing-has :
      (table : List InvoiceDraftRow) (drafts : List InvoiceDraft)
      → All (λ d. d.batch_id ≡ batch_id) drafts
      → All (λ d. has table d || has (missing table drafts) d ≡ true) drafts
  unfolding draft_row
  missing-has table [] h = tt
  missing-has table (d ∷ drafts) h =
      let Held : List InvoiceDraftRow → Type 0 =
        λ rows. All (λ x. has table x || has rows x ≡ true) (d ∷ drafts) in
      elim (Bool-cases (has table d)) [
        | inl present ↦
            let same : missing table drafts ≡ missing table (d ∷ drafts) = rw present refl in
            subst Held same (ground arith, missing-has table drafts h.1)
        | inr absent ↦
            let same : draft_row d ∷ missing table drafts ≡ missing table (d ∷ drafts) =
              rw absent refl in
            let same_batch = h.0 in
            subst Held same (
              ground (arith, eq_refl batch_id, eq_refl d.id),
              has-cons (draft_row d) table (missing table drafts) drafts
                  (missing-has table drafts h.1),
            )
      ]

insert_rows-drafts :
    (rows : List InvoiceDraftRow) (db db' : Database)
    → insert_rows rows db ≡ ok (tt, db')
    → db'.invoice_drafts ≡ db.invoice_drafts ++ rows
unfolding insert_rows
insert_rows-drafts [] db db' e = ground (arith, append_nil db.invoice_drafts)
insert_rows-drafts (row ∷ rows) db db' e = ground arith

no_new_rows :
    (batch_id : String) (table rows : List InvoiceDraftRow) (drafts : List InvoiceDraft)
    → All (λ d. has batch_id table d || has batch_id rows d ≡ true) drafts
    → All (λ d. not (has batch_id (table ++ rows) d) ≡ false) drafts
no_new_rows batch_id table rows [] h = tt
no_new_rows batch_id table rows (d ∷ drafts) h = (
  let first = h.0 in
      ground (arith, exists_where-append (λ r. r.batch_id == batch_id && r.id == d.id) table rows),
  no_new_rows batch_id table rows drafts h.1,
)

-- Once drafts of a batch, all with the batch's id, are saved, saving the same drafts again
-- succeeds and changes nothing.
pub save_idempotent :
    (batch_id : String) (drafts : List InvoiceDraft) (db db' : Database)
    → All (λ d. d.batch_id ≡ batch_id) drafts
    → save batch_id drafts db ≡ ok (tt, db')
    → save batch_id drafts db' ≡ ok (tt, db')
unfolding save new_rows insert_rows
save_idempotent batch_id drafts db db' own e =
    let rows = missing batch_id db.invoice_drafts drafts in
    let table = insert_rows-drafts rows db db' e in
    let none_new : missing batch_id db'.invoice_drafts drafts ≡ [] = rw table (
      ap (map draft_row) (
        select_where-none (λ d. not (has batch_id (db.invoice_drafts ++ rows) d)) drafts
          (no_new_rows batch_id db.invoice_drafts rows drafts
            (missing-has batch_id db.invoice_drafts drafts own)))) in
    ap (λ (r : List InvoiceDraftRow). insert_rows r db') none_new
