-- ===== src/EventStore/Ownership.antt =====
-- A transfer is queued only for an invoice that the program owns.
use starkbank_backend_challe.Base.{
  ℕ, ◌≡◌, refl, inl, inr, Bool, true, false, not, ◌&&◌, Option, none, some, List, [], ◌∷◌, String,
  ◌==◌, eq_refl, is_none, holds, arith, take, select_where, update_where, first_where,
  first_where-none, first_where-exists, exists_where, exists_where-updated, exists_where-selected,
  exists_where-RowByRow, Bool-cases, Option-cases,
}
use starkbank_backend_challe.Base.Int.{ℤ}
use starkbank_backend_challe.Domain.Errors.{ok}
use starkbank_backend_challe.Domain.Events.{
  CreditedInvoiceEvent, VerifiedEvent, EventRecord, credited_invoice, ignored, transfer_lifecycle,
}
use starkbank_backend_challe.Domain.Status.{queued}
use starkbank_backend_challe.Schema.{Database, OwnedInvoiceRow}
use starkbank_backend_challe.Transaction.{bind_inv}
use starkbank_backend_challe.EventStore.{
  insert_event, mark_invoice_unknown, bind_owner, confirm_draft, is_other, is_in, from_keys,
  owns_by_tag, owns_bound, owns_found, owns_invoice, is_recoverable, try_again, recover,
  recover_duplicate, initial_outcome, credit, record_other, record_kind, record_event,
}
use starkbank_backend_challe.EventStore.Owners.{
  OwnerKeeps, Owners, queue_transfer-Owners, requeue-Owners,
}

-- Some owner has the invoice.
abbrev pub is_owned : String → Database → Bool
is_owned id db = exists_where (λ r. holds r.provider_invoice_id id) db.owned_invoices

is_owned-Owners :
    (id : String) (db db' : Database)
    → Owners db db'
    → is_owned id db ≡ true
    → is_owned id db' ≡ true
is_owned-Owners id db db' h e =
    exists_where-RowByRow OwnerKeeps (λ r. holds r.provider_invoice_id id)
      (λ x y k held. let bound = k.bound in ground arith) db.owned_invoices db'.owned_invoices h e

confirm_draft-is_owned :
    (owner : OwnedInvoiceRow) (id : String) (at : ℕ) (db : Database) (owned : Bool) (db' : Database)
    → confirm_draft owner id at db ≡ ok (owned, db')
    → is_owned id db ≡ true
    → is_owned id db' ≡ true
unfolding confirm_draft
confirm_draft-is_owned owner id at db owned db' e h =
    let rows : db'.owned_invoices ≡ db.owned_invoices = ground arith in rw rows h

-- The one match, when its invoice is this one or none, has it after the UPDATE.
bind_owner-is_owned :
    (owner : OwnedInvoiceRow) (p : OwnedInvoiceRow → Bool) (id : String) (at : ℕ)
    (db db' : Database)
    → take 2 (select_where p db.owned_invoices) ≡ owner ∷ []
    → is_other owner.provider_invoice_id id ≡ false
    → is_owned id db ≡ false
    → bind_owner owner id at db ≡ ok (true, db')
    → is_owned id db' ≡ true
unfolding bind_owner is_other
bind_owner-is_owned owner p id at db db' found other free e =
    let free_row : OwnedInvoiceRow → Bool =
      λ r. r.tag == owner.tag && is_none r.provider_invoice_id in
    let bound : OwnedInvoiceRow → OwnedInvoiceRow =
      λ r. record r { provider_invoice_id = some id; updated_at = at } in
    let rows : db'.owned_invoices ≡ update_where free_row bound db.owned_invoices = ground arith in
    elim (Option-cases owner.provider_invoice_id) [
      | inl null ↦
          let present =
            exists_where-selected p free_row owner [] db.owned_invoices found
              (rw (null, eq_refl owner.tag) refl) in
          rw rows (
            exists_where-updated free_row (λ r. holds r.provider_invoice_id id) bound
              (λ x h. eq_refl id) db.owned_invoices present)
      | inr (current, e') ↦
          let present =
            exists_where-selected p (λ r. holds r.provider_invoice_id id) owner [] db.owned_invoices
              found (ground (arith, e')) in
          ground arith
    ]

owns_by_tag-is_owned :
    (owners : List OwnedInvoiceRow) (p : OwnedInvoiceRow → Bool) (id : String) (at : ℕ)
    (db db' : Database)
    → take 2 (select_where p db.owned_invoices) ≡ owners
    → is_owned id db ≡ false
    → owns_by_tag owners id at db ≡ ok (true, db')
    → is_owned id db' ≡ true
unfolding owns_by_tag
owns_by_tag-is_owned [] p id at db db' found free e = ground arith
owns_by_tag-is_owned (owner ∷ []) p id at db db' found free e =
    elim (Bool-cases (is_other owner.provider_invoice_id id)) [
      | inl other ↦ let done = rw other at e in ground arith
      | inr mine ↦
          let (bound, mid, e₁, e₂) = bind_inv (bind_owner owner id at) _ db (rw mine at e) in
          elim (Bool-cases bound) [
            | inl kept ↦
                confirm_draft-is_owned owner id at mid true db' (rw kept at e₂)
                  (bind_owner-is_owned owner p id at db mid found mine free (rw kept at e₁))
            | inr refused ↦ let done = rw refused at e₂ in ground arith
          ]
    ]
owns_by_tag-is_owned (owner ∷ other ∷ owners) p id at db db' found free e = ground arith

owns_found-is_owned :
    (event : CreditedInvoiceEvent) (at : ℕ) (found : Option OwnedInvoiceRow) (db db' : Database)
    → first_where (λ r. holds r.provider_invoice_id event.invoice_id) db.owned_invoices ≡ found
    → owns_found event at found db ≡ ok (true, db')
    → is_owned event.invoice_id db' ≡ true
unfolding owns_found owns_bound
owns_found-is_owned event at (some owner) db db' found e =
    elim (Bool-cases
      (exists_where (λ r. is_in event.tags r.tag && not (r.tag == owner.tag)) db.owned_invoices)) [
        | inl foreign ↦ let done = rw foreign at e in ground arith
        | inr own ↦
            confirm_draft-is_owned owner event.invoice_id at db true db' (rw own at e)
              (first_where-exists _ db.owned_invoices owner found)
      ]
owns_found-is_owned event at none db db' found e =
    owns_by_tag-is_owned
      (take 2 (select_where (λ r. is_in (from_keys [] event.tags) r.tag) db.owned_invoices))
      (λ r. is_in (from_keys [] event.tags) r.tag) event.invoice_id at db db' refl
      (first_where-none _ db.owned_invoices found) e

owns_invoice-is_owned :
    (event : CreditedInvoiceEvent) (at : ℕ) (db db' : Database)
    → owns_invoice event at db ≡ ok (true, db')
    → is_owned event.invoice_id db' ≡ true
unfolding owns_invoice
owns_invoice-is_owned event at db db' e = owns_found-is_owned event at _ db db' refl e

module _ (job_id : String) (rec : EventRecord) where
  recover-is_owned :
      (event : VerifiedEvent) (net : Option ℤ) (credited : CreditedInvoiceEvent) (db db' : Database)
      → event ≡ credited_invoice credited
      → recover job_id rec event net db ≡ ok (queued, db')
      → is_owned credited.invoice_id db' ≡ true
  unfolding recover try_again
  recover-is_owned (credited_invoice event) (some net) credited db db' same e =
      elim (Bool-cases
        (is_recoverable rec (first_where (λ r. r.id == event.event_id) db.webhook_events))) [
          | inl again ↦
              let (owned, mid, e₁, e₂) =
                bind_inv (owns_invoice event rec.received_at) _ db (rw again at e) in
              elim (Bool-cases owned) [
                | inl kept ↦
                    let mine = owns_invoice-is_owned event rec.received_at db mid (rw kept at e₁) in
                    let owners =
                      requeue-Owners job_id event net rec.received_at mid queued db'
                        (rw kept at e₂) in
                    let still = is_owned-Owners event.invoice_id mid db' owners mine in
                    let same_invoice : event.invoice_id ≡ credited.invoice_id = ground arith in
                    rw same_invoice at still
                | inr refused ↦ let done = rw refused at e₂ in ground arith
              ]
          | inr not_again ↦ let done = rw not_again at e in ground arith
        ]
  recover-is_owned (credited_invoice event) none credited db db' same e = ground arith
  recover-is_owned (ignored event) net credited db db' same e = cc
  recover-is_owned (transfer_lifecycle event) net credited db db' same e = cc

  credit-is_owned :
      (event : VerifiedEvent) (net : Option ℤ) (credited : CreditedInvoiceEvent) (db db' : Database)
      → event ≡ credited_invoice credited
      → credit job_id rec event net db ≡ ok (queued, db')
      → is_owned credited.invoice_id db' ≡ true
  unfolding credit initial_outcome mark_invoice_unknown
  credit-is_owned (credited_invoice event) (some net) credited db db' same e =
      let (owned, mid, e₁, e₂) = bind_inv (owns_invoice event rec.received_at) _ db e in
      elim (Bool-cases owned) [
        | inl kept ↦
            let mine = owns_invoice-is_owned event rec.received_at db mid (rw kept at e₁) in
            let owners =
              queue_transfer-Owners job_id event net rec.received_at mid queued db'
                (rw kept at e₂) in
            let still = is_owned-Owners event.invoice_id mid db' owners mine in
            let same_invoice : event.invoice_id ≡ credited.invoice_id = ground arith in
            rw same_invoice at still
        | inr refused ↦ let done = rw refused at e₂ in ground arith
      ]
  credit-is_owned (credited_invoice event) none credited db db' same e = ground arith
  credit-is_owned (ignored event) net credited db db' same e = cc
  credit-is_owned (transfer_lifecycle event) net credited db db' same e = cc

  record_kind-is_owned :
      (event : VerifiedEvent) (credited : CreditedInvoiceEvent) (db db' : Database)
      → event ≡ credited_invoice credited
      → rec.event ≡ credited_invoice credited
      → record_kind job_id rec event db ≡ ok (queued, db')
      → is_owned credited.invoice_id db' ≡ true
  unfolding record_kind record_other recover_duplicate
  record_kind-is_owned (credited_invoice event) credited db db' same same_rec e =
      let outcome = initial_outcome rec.event rec.net_amount in
      let (inserted, mid, e₁, e₂) = bind_inv (insert_event rec outcome) _ db e in
      elim (Bool-cases inserted) [
        | inl kept ↦
            credit-is_owned rec.event rec.net_amount credited mid db' same_rec (rw kept at e₂)
        | inr refused ↦
            recover-is_owned rec.event rec.net_amount credited mid db' same_rec (rw refused at e₂)
      ]
  record_kind-is_owned _ credited db db' same same_rec e = cc

  -- When recording a credited event queues a transfer, some owner has the event's invoice
  -- afterwards.
  pub queued_is_owned :
      (credited : CreditedInvoiceEvent) (db db' : Database)
      → rec.event ≡ credited_invoice credited
      → record_event job_id rec db ≡ ok (queued, db')
      → is_owned credited.invoice_id db' ≡ true
  unfolding record_event
  queued_is_owned credited db db' same e =
      record_kind-is_owned rec.event credited db db' same same e
