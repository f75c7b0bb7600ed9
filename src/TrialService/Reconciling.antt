-- ===== src/TrialService/Reconciling.antt =====
-- application/trials.py: `reconcile_invoices`. The order in which Python walks a set is a parameter.
use starkbank_backend_challe.Base.{
  ℕ, suc, Option, none, some, List, [], ◌∷◌, String, ◌==◌, exists_where, if◌then◌else◌,
}
use starkbank_backend_challe.Domain.Errors.{Result, ok, err, provider, is_transient}
use starkbank_backend_challe.Domain.Models.{InvoiceDraft, ProviderInvoice}
use starkbank_backend_challe.InvoiceStore.{unknown_drafts, reconcile, settle}
use starkbank_backend_challe.Service.{
  Action, pure, raise, transact, attempt, ◌>>=◌, ◌>>◌, read_clock, call,
}
use starkbank_backend_challe.TrialService.{TrialService, TrialEnv, draft_backoff}

-- The number of invoices found and the batches to settle.
pub record Reconciled : Type 0 where
  pub reconciled : ℕ
  pub batches : List String

-- `batches.add(…)`
unfoldable pub add_to_set : String → List String → List String
add_to_set id ids = if exists_where (λ i. i == id) ids then ids else id ∷ ids

unfoldable pub count_found : Option ProviderInvoice → ℕ → ℕ
count_found none n = n
count_found (some _) n = suc n

module _ {W : Type 0} (service : TrialService) (env : TrialEnv W) where
  unfoldable pub reconcile_found :
      InvoiceDraft → ℕ → Reconciled → Result (Option ProviderInvoice) → Action W Reconciled
  reconcile_found draft now so_far (ok invoice) = do
    transact (
        reconcile (record { draft = draft; provider_invoice = invoice; at = now })
          service.invoice_max_attempts service.invoice_reconciliation_max_attempts
          (draft_backoff service draft.attempts))
    pure (record {
      reconciled = count_found invoice so_far.reconciled;
      batches = add_to_set draft.batch_id so_far.batches;
    })
  reconcile_found draft now so_far (err (provider e)) =
      if is_transient e then pure so_far else raise (provider e)
  reconcile_found draft now so_far (err e) = raise e

  unfoldable pub reconcile_draft : InvoiceDraft → ℕ → Reconciled → Action W Reconciled
  reconcile_draft draft now so_far = do
    found ← attempt (call env.meanwhile (env.find_invoice draft.tag))
    reconcile_found draft now so_far found

  unfoldable pub reconcile_all : List InvoiceDraft → ℕ → Reconciled → Action W Reconciled
  reconcile_all [] now so_far = pure so_far
  reconcile_all (draft ∷ drafts) now so_far =
      reconcile_draft draft now so_far >>= reconcile_all drafts now

  unfoldable pub settle_all : List String → ℕ → Action W (Unit {0})
  settle_all [] now = pure tt
  settle_all (batch_id ∷ batches) now = transact (settle batch_id now) >> settle_all batches now

  unfoldable pub reconcile_invoices : (List String → List String) → Action W ℕ
  reconcile_invoices set_order = do
    now ← read_clock env.clock
    result ← (λ db w.
        reconcile_all (unknown_drafts env.sql now 100 db) now
          (record { reconciled = 0; batches = [] }) db w)
    settle_all (set_order result.batches) now
    pure result.reconciled
