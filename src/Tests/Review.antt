-- ===== src/Tests/Review.antt =====
-- The review store.
use Prim.Native.Nat.{◌%◌}
use text.Mathlib.TextLemmas.{append-nil}
use starkbank_backend_challe.Base.{
  ℕ, zero, suc, ◌+◌, ◌<◌, ◌≡◌, ◌↔◌, refl, sym, ap, true, false, none, some, [], ◌∷◌, map, String,
  arith, length,
}
use starkbank_backend_challe.Base.NewestInsertion.{newest}
use starkbank_backend_challe.Domain.Errors.{ok}
use starkbank_backend_challe.Domain.Time.{aware}
use starkbank_backend_challe.Domain.Status.{queued}
use starkbank_backend_challe.EventStore.{event_row}
use starkbank_backend_challe.InvoiceStore.{draft_row}
use starkbank_backend_challe.Schema.{
  Database, IsConsistent, InvoiceDraftRow, trial_runs_constraints, invoice_batches_constraints,
  invoice_drafts_constraints, owned_invoices_constraints, webhook_events_constraints,
  transfer_jobs_constraints,
}
use starkbank_backend_challe.Review.Cursor.{
  Codec, IsCodec, text_len, equals_signs, rstrip, has_bar, cursor, decode_cursor,
}
use starkbank_backend_challe.Review.RoundTrip.{decode_cursor-cursor}
use starkbank_backend_challe.Review.Page.{ReviewQuery, empty_query}
use starkbank_backend_challe.TrialStore.{run_row}
use starkbank_backend_challe.Review.Views.{
  InvoiceView, credited_at_of, max_received, invoice_views, invoice_view, drafts_and_batches,
}
use starkbank_backend_challe.Review.Filters.{credit_fits, invoice_fits, fits_time}
use starkbank_backend_challe.Review.Payloads.{credit_status_of, invoice_payload}
use starkbank_backend_challe.Review.Store.{invoices, listed_invoices}
use starkbank_backend_challe.Review.Walk.{follow}
use starkbank_backend_challe.Review.Listings.{follow-invoices}
use starkbank_backend_challe.Review.Credit.{credit_fits_iff, unsent_left_out}
use starkbank_backend_challe.Tests.Data.{store, payment_record}
use starkbank_backend_challe.Tests.Trials.{first_row, draft, trial}

-- A datetime as a row of as many ones, and three letters behind each letter.
abbrev ones : ℕ → String
ones zero = ""
ones (suc n) = String.◌∷◌ "1" (ones n)

abbrev spread : String → String
spread String.[] = ""
spread (String.◌∷◌ c s) = String.◌∷◌ c (String.◌∷◌ "A" (String.◌∷◌ "A" (String.◌∷◌ "A" (spread s))))

abbrev gathered : String → String
gathered (String.◌∷◌ c (String.◌∷◌ _ (String.◌∷◌ _ (String.◌∷◌ _ s)))) = String.◌∷◌ c (gathered s)
gathered _ = ""

abbrev codec : Codec
codec = record {
  isoformat = ones;
  fromisoformat = λ s. some (aware (text_len s));
  b64encode = spread;
  b64decode = λ s. some (gathered s);
}

text_len-ones : (n : ℕ) → text_len (ones n) ≡ n
unfolding text_len
text_len-ones zero = refl
text_len-ones (suc n) = ap suc (text_len-ones n)

has_bar-ones : (n : ℕ) → has_bar (ones n) ≡ false
unfolding has_bar
has_bar-ones zero = refl
has_bar-ones (suc n) = has_bar-ones n

gathered-spread : (s : String) → gathered (spread s) ≡ s
gathered-spread String.[] = refl
gathered-spread (String.◌∷◌ c s) = ap (String.◌∷◌ c) (gathered-spread s)

rstrip-spread : (s : String) → rstrip (spread s) ≡ spread s
unfolding rstrip
rstrip-spread String.[] = refl
rstrip-spread (String.◌∷◌ c s) = rw (rstrip-spread s) (ground arith)

text_len-spread : (s : String) → (text_len (spread s) + 0) % 4 ≡ 0
unfolding text_len
text_len-spread String.[] = refl
text_len-spread (String.◌∷◌ c s) = let rest = text_len-spread s in omega (arith, rest)

codec-IsCodec : IsCodec codec
unfolding equals_signs
codec-IsCodec = record {
  fromisoformat-isoformat = λ at. ap (λ n. some (aware n)) (text_len-ones at);
  isoformat_has_bar = has_bar-ones;
  b64decode-b64encode = λ s. ap some (gathered-spread s);
  b64encode_padding = λ s.
      (spread s, 0, sym (append-nil (spread s)), rstrip-spread s, omega arith, text_len-spread s);
}

decode_cursor-cursor_example :
    decode_cursor codec (some (cursor codec 3 "draft|1")) ≡ ok (some (3, "draft|1"))
decode_cursor-cursor_example = decode_cursor-cursor codec codec-IsCodec 3 "draft|1"

abbrev paid_row : InvoiceDraftRow
paid_row = record (draft_row draft) { provider_invoice_id = some "invoice-3" }

abbrev unsent_row : InvoiceDraftRow
unsent_row = record (draft_row draft) { id = "draft-2"; ordinal = 1; tag = "trial-draft:2" }

-- A batch with a paid invoice and one that has not been sent.
abbrev reviewed : Database
reviewed = record store {
  trial_runs = run_row "run" trial ∷ [];
  invoice_batches = first_row ∷ [];
  invoice_drafts = paid_row ∷ unsent_row ∷ [];
  webhook_events = event_row payment_record queued ∷ [];
}

reviewed-IsConsistent : IsConsistent reviewed
unfolding trial_runs_constraints invoice_batches_constraints invoice_drafts_constraints
    owned_invoices_constraints webhook_events_constraints transfer_jobs_constraints draft_row
    event_row run_row
reviewed-IsConsistent = record {
  trial_runs_lem = refl;
  invoice_batches_lem = refl;
  invoice_drafts_lem = refl;
  owned_invoices_lem = refl;
  webhook_events_lem = refl;
  transfer_jobs_lem = refl;
}

abbrev one_by_one : ReviewQuery
one_by_one = record empty_query { limit = 1; trial_id = some "run" }

both_listed : length (listed_invoices "smoke" reviewed one_by_one) < 3
unfolding listed_invoices invoice_views invoice_view drafts_and_batches invoice_fits fits_time
    credit_fits credited_at_of max_received draft_row
both_listed = omega arith

follow-invoices_example :
    follow
      (λ value. invoices codec newest "smoke" reviewed (record one_by_one { cursor = value }))
      3
      none
    ≡ ok (
        map (invoice_payload codec) (
          newest.sort InvoiceView
            (λ r. r.draft.created_at)
            (λ r. r.draft.id)
            (listed_invoices "smoke" reviewed one_by_one)))
follow-invoices_example =
    follow-invoices reviewed reviewed-IsConsistent codec codec-IsCodec newest "smoke" one_by_one
      (omega arith) 3 both_listed

credit_fits_iff_example :
    ((credit_fits reviewed (some "credited") paid_row ≡ true)
      ↔ (credit_status_of (credited_at_of reviewed paid_row) ≡ "credited"))
    × ((credit_fits reviewed (some "not_observed") paid_row ≡ true)
        ↔ (credit_status_of (credited_at_of reviewed paid_row) ≡ "not_observed"))
credit_fits_iff_example = credit_fits_iff reviewed paid_row "invoice-3" refl

unsent_left_out_example :
    (credit_status_of (credited_at_of reviewed unsent_row) ≡ "not_observed")
    × (credit_fits reviewed (some "not_observed") unsent_row ≡ false)
unfolding draft_row event_row
unsent_left_out_example = unsent_left_out reviewed unsent_row refl refl
