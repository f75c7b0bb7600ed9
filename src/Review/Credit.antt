-- ===== src/Review/Credit.antt =====
-- persistence/review_store.py: the filter `credit_status` against the status that an invoice shows.
use starkbank_backend_challe.Base.{
  ◌≡◌, refl, ap, ◌↔◌, Bool, true, false, not, none, some, List, [], ◌∷◌, String, arith, is_none,
  exists_where, eq_iff,
}
use starkbank_backend_challe.Schema.{Database, InvoiceDraftRow, WebhookEventRow}
use starkbank_backend_challe.Review.Views.{both_hold, max_received, later_of, credited_at_of}
use starkbank_backend_challe.Review.Filters.{is_credited, is_not_observed, credit_fits}
use starkbank_backend_challe.Review.Payloads.{credit_status_of}

-- There is a last instant exactly if there is an event.
is_none-max_received :
    (p : WebhookEventRow → Bool) (events : List WebhookEventRow)
    → is_none (max_received p events) ≡ not (exists_where p events)
unfolding max_received later_of
is_none-max_received p [] = refl
is_none-max_received p (e ∷ events) = ground (arith, is_none-max_received p events)

is_credited-is_none :
    (db : Database) (draft : InvoiceDraftRow)
    → is_credited db draft ≡ not (is_none (credited_at_of db draft))
unfolding is_credited credited_at_of
is_credited-is_none db draft =
    let seen =
      is_none-max_received (λ e. both_hold draft.provider_invoice_id e.invoice_id)
        db.webhook_events in
    rw seen (not_not (exists_where _ db.webhook_events))
  where
    not_not : (b : Bool) → b ≡ not (not b)
    not_not true = refl
    not_not false = refl

is_not_observed-is_none :
    (db : Database) (draft : InvoiceDraftRow) (id : String)
    → draft.provider_invoice_id ≡ some id
    → is_not_observed db draft ≡ is_none (credited_at_of db draft)
unfolding is_not_observed credited_at_of
is_not_observed-is_none db draft id e =
    rw
      (
        is_none-max_received (λ e. both_hold draft.provider_invoice_id e.invoice_id)
            db.webhook_events,
        e,
      )
      refl

-- Of a draft that has a provider invoice, the filter `credited` and the filter `not_observed` each
-- select it exactly if that is the credit status that its row shows.
pub credit_fits_iff :
    (db : Database) (draft : InvoiceDraftRow) (id : String)
    → draft.provider_invoice_id ≡ some id
    → ((credit_fits db (some "credited") draft ≡ true)
        ↔ (credit_status_of (credited_at_of db draft) ≡ "credited"))
      × ((credit_fits db (some "not_observed") draft ≡ true)
          ↔ (credit_status_of (credited_at_of db draft) ≡ "not_observed"))
unfolding credit_fits credit_status_of
credit_fits_iff db draft id e =
    let apart = eq_iff "not_observed" "credited" in
    let seen = is_credited-is_none db draft in
    let unseen = is_not_observed-is_none db draft id e in
    (
      (λ h. ground (arith, seen, h), λ h. ground (arith, seen, h, apart)),
      (λ h. ground (arith, unseen, h), λ h. ground (arith, unseen, h, apart)),
    )

-- A draft without a provider invoice shows `not_observed`, and the filter `not_observed` leaves it
-- out as soon as one event has an invoice, whichever it is.
pub unsent_left_out :
    (db : Database) (draft : InvoiceDraftRow)
    → draft.provider_invoice_id ≡ none
    → exists_where (λ e. not (is_none e.invoice_id)) db.webhook_events ≡ true
    → (credit_status_of (credited_at_of db draft) ≡ "not_observed")
      × (credit_fits db (some "not_observed") draft ≡ false)
unfolding credit_fits is_not_observed credit_status_of credited_at_of max_received
unsent_left_out db draft e some_event =
    rw e (ap credit_status_of (nothing db.webhook_events), ground (arith, some_event))
  where
    nothing :
        (events : List WebhookEventRow)
        → max_received (λ e. both_hold none e.invoice_id) events ≡ none
    nothing [] = refl
    nothing (x ∷ events) = nothing events
