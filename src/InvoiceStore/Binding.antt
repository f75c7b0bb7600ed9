-- ===== src/InvoiceStore/Binding.antt =====
-- `bind_provider_invoice`: an owner gets one invoice.
use starkbank_backend_challe.Base.{
  ℕ, ◌≡◌, refl, ◌∙◌, ap, inl, inr, Bool, true, Option, none, some, List, String, ◌==◌, eq_refl,
  arith, is_none, holds, is_unique, every_unique, ◌⊎◌, first_where, first_where_and,
  first_where_holds, first_where-update_where, update_where, RowByRow-update_every, Bool-cases,
  RowByRow-update_where, RowByRow,
}
use starkbank_backend_challe.Domain.Errors.{ok}
use starkbank_backend_challe.Schema.{Database, OwnedInvoiceRow, owned_invoices_constraints}
use starkbank_backend_challe.InvoiceStore.{or_conflict, bind_current, bind_provider_invoice}
use starkbank_backend_challe.EventStore.Owners.{OwnerKeeps, Owners}

abbrev has_tag : String → OwnedInvoiceRow → Bool
has_tag tag r = r.tag == tag

abbrev bound : String → ℕ → OwnedInvoiceRow → OwnedInvoiceRow
bound id now r = record r { provider_invoice_id = some id; updated_at = now }

abbrev touched : ℕ → OwnedInvoiceRow → OwnedInvoiceRow
touched now r = record r { updated_at = now }

unique_tags :
    (rows : List OwnedInvoiceRow)
    → owned_invoices_constraints rows ≡ true
    → is_unique (λ r. some r.tag) rows ≡ true
unfolding owned_invoices_constraints
unique_tags rows h = ground arith

-- The two ways in which the call succeeds.
bind_cases :
    (tag id : String) (now : ℕ) (found : Option OwnedInvoiceRow) (db db' : Database)
    → bind_current tag id now found db ≡ ok (tt, db')
    → (owner : OwnedInvoiceRow) × (found ≡ some owner)
      × (((is_none owner.provider_invoice_id ≡ true)
            × (db'.owned_invoices ≡ update_where (has_tag tag) (bound id now) db.owned_invoices))
          ⊎ ((holds owner.provider_invoice_id id ≡ true)
              × (db'.owned_invoices ≡ update_where (has_tag tag) (touched now) db.owned_invoices)))
unfolding bind_current or_conflict
bind_cases tag id now none db db' e = ground arith
bind_cases tag id now (some owner) db db' e =
    elim (Bool-cases (is_none owner.provider_invoice_id)) [
      | inl free ↦ let done = rw free at e in (owner, refl, inl (free, ground arith))
      | inr taken ↦ elim (Bool-cases (holds owner.provider_invoice_id id)) [
        | inl mine ↦ let done = rw (taken, mine) at e in (owner, refl, inr (mine, ground arith))
        | inr other ↦ let done = rw (taken, other) at e in ground arith
      ]
    ]

-- An owner found by its tag, after an UPDATE of that tag.
updated_owner :
    (tag : String) (f : OwnedInvoiceRow → OwnedInvoiceRow) (rows : List OwnedInvoiceRow)
    (owner : OwnedInvoiceRow)
    → ((x : OwnedInvoiceRow) → (f x).tag ≡ x.tag)
    → first_where (has_tag tag) rows ≡ some owner
    → first_where (has_tag tag) (update_where (has_tag tag) f rows) ≡ some (f owner)
updated_owner tag f rows owner same found =
    let hit = first_where_holds (has_tag tag) rows found in
    first_where-update_where (has_tag tag) (has_tag tag) f
      (λ x. ap (λ (t : String). t == tag) (same x)) rows owner found
    ∙ rw hit refl

abbrev free : OwnedInvoiceRow → Bool
free r = is_none r.provider_invoice_id

bind-Owners :
    (tag id : String) (now : ℕ) (owner : OwnedInvoiceRow) (rows : List OwnedInvoiceRow)
    → owned_invoices_constraints rows ≡ true
    → first_where (has_tag tag) rows ≡ some owner
    → is_none owner.provider_invoice_id ≡ true
    → RowByRow OwnerKeeps rows (update_where (has_tag tag) (bound id now) rows)
bind-Owners tag id now owner rows consistent found null =
    RowByRow-update_every OwnerKeeps (has_tag tag) free (bound id now) (λ x. ground arith)
      (λ x hit no_invoice. ground arith) rows
      (every_unique (λ r. some r.tag) tag free rows (unique_tags rows consistent)
        (first_where_and (has_tag tag) free rows owner found null))

-- On owners that satisfy the constraints of their table, when `bind_provider_invoice` returns, the
-- owner with the tag has the invoice, and each owner that had an invoice before has the same one.
pub bind_provider_invoice-Owners :
    (tag id : String) (now : ℕ) (db db' : Database)
    → owned_invoices_constraints db.owned_invoices ≡ true
    → bind_provider_invoice tag id now db ≡ ok (tt, db')
    → Owners db db'
      × ((owner : OwnedInvoiceRow) × (first_where (has_tag tag) db'.owned_invoices ≡ some owner)
          × (holds owner.provider_invoice_id id ≡ true))
unfolding bind_provider_invoice
bind_provider_invoice-Owners tag id now db db' consistent e =
    let (owner, found, cases) = bind_cases tag id now _ db db' e in
    elim cases [
      | inl (null, rows) ↦ rw rows (
        bind-Owners tag id now owner db.owned_invoices consistent found null,
        (
          bound id now owner,
          updated_owner tag (bound id now) db.owned_invoices owner (λ x. refl) found,
          eq_refl id,
        ),
      )
      | inr (mine, rows) ↦ rw rows (
        RowByRow-update_where OwnerKeeps (has_tag tag) (touched now) (λ x. ground arith)
            (λ x hit. ground arith) db.owned_invoices,
        (
          touched now owner,
          updated_owner tag (touched now) db.owned_invoices owner (λ x. refl) found,
          mine,
        ),
      )
    ]
