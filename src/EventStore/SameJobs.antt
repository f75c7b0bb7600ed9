-- ===== src/EventStore/SameJobs.antt =====
-- Deciding the ownership of an invoice, and inserting an event, leave the transfer jobs alone.
use starkbank_backend_challe.Base.{
  ℕ, ◌≡◌, refl, ◌∙◌, Bool, false, Option, none, some, List, [], ◌∷◌, String, arith,
}
use starkbank_backend_challe.Domain.Events.{CreditedInvoiceEvent, EventRecord}
use starkbank_backend_challe.Domain.Status.{EventWriteResult}
use starkbank_backend_challe.Schema.{Database, OwnedInvoiceRow}
use starkbank_backend_challe.Transaction.{pure, gets}
use starkbank_backend_challe.Transaction.Keeps.{Keeps, Keeps-pure, Keeps-gets, Keeps-if, Keeps-bind}
use starkbank_backend_challe.Base.Tests.{if◌then◌else◌}
use starkbank_backend_challe.EventStore.{
  insert_event, bind_owner, confirm_draft, owns_by_tag, owns_bound, owns_found, owns_invoice,
}

-- Deciding the ownership changes `owned_invoices` and `invoice_drafts` only.
abbrev pub Same : Database → Database → Type 0
Same db db' =
    (db'.transfer_jobs ≡ db.transfer_jobs)
    × (db'.webhook_events ≡ db.webhook_events)
    × (db'.trial_runs ≡ db.trial_runs)
    × (db'.invoice_batches ≡ db.invoice_batches)

same : (db : Database) → Same db db
same db = (refl, refl, refl, refl)

Same-trans : (x y z : Database) → Same x y → Same y z → Same x z
Same-trans x y z (j, w, t, b) (j', w', t', b') = (j' ∙ j, w' ∙ w, t' ∙ t, b' ∙ b)

abbrev pub SameJobs : Database → Database → Type 0
SameJobs db db' = db'.transfer_jobs ≡ db.transfer_jobs

pub insert_event-SameJobs :
    (rec : EventRecord) (outcome : EventWriteResult) → Keeps SameJobs (insert_event rec outcome)
unfolding insert_event
insert_event-SameJobs rec outcome db a db' e = ground arith

confirm_draft-Same :
    (owner : OwnedInvoiceRow) (id : String) (at : ℕ) → Keeps Same (confirm_draft owner id at)
unfolding confirm_draft
confirm_draft-Same owner id at db a db' e = ground arith

bind_owner-Same :
    (owner : OwnedInvoiceRow) (id : String) (at : ℕ) → Keeps Same (bind_owner owner id at)
unfolding bind_owner
bind_owner-Same owner id at db a db' e = ground arith

confirm_if-Same :
    (owner : OwnedInvoiceRow) (id : String) (at : ℕ) (b : Bool)
    → Keeps Same (if b then confirm_draft owner id at else pure false)
confirm_if-Same owner id at b =
    Keeps-if Same b (confirm_draft owner id at) (pure false) (confirm_draft-Same owner id at)
      (Keeps-pure Same same false)

owns_by_tag-Same :
    (owners : List OwnedInvoiceRow) (id : String) (at : ℕ) → Keeps Same (owns_by_tag owners id at)
unfolding owns_by_tag
owns_by_tag-Same [] id at = Keeps-pure Same same false
owns_by_tag-Same (owner ∷ []) id at = Keeps-if Same _ (pure false) _ (Keeps-pure Same same false) (
    Keeps-bind Same Same-trans (bind_owner owner id at) _ (bind_owner-Same owner id at)
      (confirm_if-Same owner id at))
owns_by_tag-Same (owner ∷ other ∷ owners) id at = Keeps-pure Same same false

owns_bound-Same :
    (owner : OwnedInvoiceRow) (event : CreditedInvoiceEvent) (at : ℕ)
    → Keeps Same (owns_bound owner event at)
unfolding owns_bound
owns_bound-Same owner event at =
    Keeps-bind Same Same-trans (gets _) _ (Keeps-gets Same same _) λ foreign.
      Keeps-if Same foreign (pure false) (confirm_draft owner event.invoice_id at)
        (Keeps-pure Same same false) (confirm_draft-Same owner event.invoice_id at)

owns_found-Same :
    (event : CreditedInvoiceEvent) (at : ℕ) (owner : Option OwnedInvoiceRow)
    → Keeps Same (owns_found event at owner)
unfolding owns_found
owns_found-Same event at (some owner) = owns_bound-Same owner event at
owns_found-Same event at none =
    Keeps-bind Same Same-trans (gets _) _ (Keeps-gets Same same _)
      λ matches. owns_by_tag-Same matches event.invoice_id at

pub owns_invoice-Same : (event : CreditedInvoiceEvent) (at : ℕ) → Keeps Same (owns_invoice event at)
unfolding owns_invoice
owns_invoice-Same event at =
    Keeps-bind Same Same-trans (gets _) _ (Keeps-gets Same same _) (owns_found-Same event at)
