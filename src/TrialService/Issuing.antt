-- ===== src/TrialService/Issuing.antt =====
-- Issuing a draft that has been tried before.
use starkbank_backend_challe.Base.{
  ℕ, ◌+◌, ◌<◌, ◌≡◌, ◌≢◌, refl, ◌⊎◌, inl, inr, true, none, some, List, String, ◌==◌, eq_iff, holds,
  holds-eq, arith, Bool-cases, update_where, RowByRow, RowByRow-update_split,
}
use starkbank_backend_challe.Domain.Errors.{ok, err, integrity}
use starkbank_backend_challe.Domain.Models.{InvoiceDraft, ProviderInvoice, DraftCreated}
use starkbank_backend_challe.Domain.Status.{DraftStatus}
use starkbank_backend_challe.Schema.{
  Database, InvoiceDraftRow, OwnedInvoiceRow, invoice_drafts_constraints,
  owned_invoices_constraints,
}
use starkbank_backend_challe.InvoiceStore.{DraftTransition, mark_created, transition, transitioned}
use starkbank_backend_challe.TrialService.{
  TrialService, TrialEnv, note_created, settle_found, settle_attempted_draft, issue_attempted,
  issue_draft,
}

-- The draft with the id is created with the invoice, one attempt later; any other is as it was.
pub record CreatedOnly (draft_id invoice_id : String) (now : ℕ) (x y : InvoiceDraftRow)
    : Type 0 where
  pub created :
      x.id ≡ draft_id
      → y ≡ record x {
        status = DraftStatus.created;
        provider_invoice_id = some invoice_id;
        attempts = x.attempts + 1;
        last_error_code = none;
        next_attempt_at = now;
        reconcile_attempts = 0;
        updated_at = now;
      }
  pub left : x.id ≢ draft_id → y ≡ x

-- The owner of the draft has the invoice; any other is as it was.
pub record BoundOnly (draft_id invoice_id : String) (now : ℕ) (x y : OwnedInvoiceRow) : Type 0 where
  pub bound :
      x.draft_id ≡ some draft_id
      → y ≡ record x { provider_invoice_id = some invoice_id; updated_at = now }
  pub left : x.draft_id ≢ some draft_id → y ≡ x

-- Both tables after the draft is created.
pub record IsIssued (draft_id invoice_id : String) (now : ℕ) (db db' : Database) : Type 0 where
  pub drafts : RowByRow (CreatedOnly draft_id invoice_id now) db.invoice_drafts db'.invoice_drafts
  pub owners : RowByRow (BoundOnly draft_id invoice_id now) db.owned_invoices db'.owned_invoices

module _ (result : DraftCreated) where
  abbrev created_transition : DraftTransition
  created_transition = record {
    draft_id = result.draft_id;
    status = DraftStatus.created;
    at = result.at;
    provider_invoice_id = some result.invoice_id;
    error_code = none;
    next_attempt_at = result.at;
    reset_reconcile_attempts = true;
  }

  abbrev created_drafts : Database → List InvoiceDraftRow
  created_drafts db =
      update_where (λ r. r.id == result.draft_id) (transitioned created_transition)
        db.invoice_drafts

  abbrev bound_owners : Database → List OwnedInvoiceRow
  bound_owners db =
      update_where (λ r. holds r.draft_id result.draft_id)
        (λ r. record r { provider_invoice_id = some result.invoice_id; updated_at = result.at })
        db.owned_invoices

  mark_created-IsIssued :
      (db : Database)
      → IsIssued result.draft_id result.invoice_id result.at db
          (record db { invoice_drafts = created_drafts db; owned_invoices = bound_owners db })
  unfolding transitioned
  mark_created-IsIssued db = record {
    drafts =
        RowByRow-update_split (CreatedOnly result.draft_id result.invoice_id result.at) _ _
          (λ x other. record {
            created = λ e. ground (arith, eq_iff x.id result.draft_id, e, other);
            left = λ _. refl;
          })
          (λ x hit. record {
            created = λ _. refl;
            left = λ other. absurd (other ((eq_iff x.id result.draft_id).0 hit));
          })
          db.invoice_drafts;
    owners =
        RowByRow-update_split (BoundOnly result.draft_id result.invoice_id result.at) _ _
          (λ x other. record {
            bound = λ e. absurd (ground (arith, eq_iff result.draft_id result.draft_id, e, other));
            left = λ _. refl;
          })
          (λ x hit. record {
            bound = λ _. refl;
            left = λ other. absurd (other (holds-eq x.draft_id result.draft_id hit));
          })
          db.owned_invoices;
  }

  mark_created_cases :
      (db : Database)
      → ((db' : Database) × (mark_created result db ≡ ok (tt, db'))
          × IsIssued result.draft_id result.invoice_id result.at db db')
        ⊎ (mark_created result db ≡ err integrity)
  unfolding mark_created transition
  mark_created_cases db = elim (Bool-cases (invoice_drafts_constraints (created_drafts db))) [
    | inr e ↦ inr (ground (arith, e))
    | inl e ↦ elim (Bool-cases (owned_invoices_constraints (bound_owners db))) [
      | inr d ↦ inr (ground (arith, e, d))
      | inl d ↦ inl (_, ground (arith, e, d), mark_created-IsIssued db)
    ]
  ]

-- A draft that has been tried before, and whose invoice the provider finds by its tag: the provider
-- is not called again, so no second invoice is made. In the database as other processes left it
-- meanwhile, the draft is CREATED with that invoice, one attempt later, its owner has the invoice,
-- and every other draft and owner is as it was; or the database refuses that and is left alone.
pub issue_draft_found :
    {W : Type 0} (service : TrialService) (env : TrialEnv W) (draft : InvoiceDraft) (now : ℕ)
    (db : Database) (w w₁ : W) (invoice : ProviderInvoice)
    → 0 < draft.attempts
    → env.find_invoice draft.tag w ≡ (ok (some invoice), w₁)
    → ((db' : Database) × (issue_draft service env draft now db w ≡ (ok tt, db', w₁))
        × IsIssued draft.id invoice.id now (env.meanwhile w₁ db) db')
      ⊎ (issue_draft service env draft now db w ≡ (err integrity, env.meanwhile w₁ db, w₁))
unfolding issue_draft issue_attempted settle_attempted_draft settle_found note_created
issue_draft_found service env draft now db w w₁ invoice tried e =
    elim (mark_created_cases (record { draft_id = draft.id; invoice_id = invoice.id; at = now })
      (env.meanwhile w₁ db)) [
        | inl (db', done, tables) ↦ inl (db', ground (arith, done), tables)
        | inr refused ↦ inr (ground (arith, refused))
      ]
