-- ===== src/Smoke.antt =====
-- application/smoke.py, `build_smoke_invoice` of application/payers.py and `record_smoke` of
-- persistence/invoice_store.py: invoices for a try-out in the provider's sandbox. `uuid5`, Faker, the
-- provider and the clock belong to the environment; `text_of` is `str` of an ordinal.
pub mod Counts
use starkbank_backend_challe.Base.{
  ℕ, zero, suc, Bool, true, false, Option, none, some, List, [], ◌∷◌, ◌++◌, String, ◌<>◌,
}
use starkbank_backend_challe.Domain.Errors.{
  ProviderError, unknown_outcome, Error, Result, ok, err, provider,
}
use starkbank_backend_challe.Domain.Models.{InvoiceDraft, ProviderInvoice}
use starkbank_backend_challe.Domain.Status.{DraftStatus}
use starkbank_backend_challe.InvoiceStore.{register_smoke, bind_provider_invoice}
use starkbank_backend_challe.Schema.{Database}
use starkbank_backend_challe.Service.{
  Action, pure, raise, transact, attempt, ◌>>=◌, ◌>>◌, Clock, read_clock, Call, call,
}

pub record SmokeBatchResult : Type 0 where
  pub invoices : List ProviderInvoice
  pub reused : ℕ

pub record SmokeEnv (W : Type 0) : Type 0 where
  pub clock : Clock W
  pub smoke_uuid : (namespace reference : String) → String
  pub payer_name : String → String
  pub payer_tax_id : String → String
  pub text_of : ℕ → String
  pub create_invoice : InvoiceDraft → Call W ProviderInvoice
  pub find_invoice : String → Call W (Option ProviderInvoice)
  pub meanwhile : W → Database → Database

-- What a loop has gathered: the invoices, and how many of them there were before.
unfoldable pub with_invoice : SmokeBatchResult → ProviderInvoice → SmokeBatchResult
with_invoice result invoice = record {
  invoices = result.invoices ++ invoice ∷ [];
  reused = result.reused;
}

unfoldable pub with_reused : SmokeBatchResult → ProviderInvoice → SmokeBatchResult
with_reused result invoice = record {
  invoices = result.invoices ++ invoice ∷ [];
  reused = suc result.reused;
}

module _ {W : Type 0} (env : SmokeEnv W) (namespace : String) where
  unfoldable pub build_smoke_invoice : String → ℕ → ℕ → InvoiceDraft
  build_smoke_invoice reference amount created_at =
      let draft_id = env.smoke_uuid namespace reference in
      record {
        id = draft_id;
        batch_id = "sandbox-smoke";
        ordinal = 0;
        payer_name = env.payer_name draft_id;
        payer_tax_id = env.payer_tax_id draft_id;
        amount = amount;
        tag = "trial-smoke:" <> draft_id;
        status = DraftStatus.pending;
        attempts = 0;
        created_at = created_at;
        next_attempt_at = none;
      }

  -- Two transactions.
  unfoldable pub record_smoke : InvoiceDraft → String → ℕ → Action W (Unit {0})
  record_smoke draft provider_invoice_id at =
      transact (register_smoke draft at)
      >> transact (bind_provider_invoice draft.tag provider_invoice_id at)

  unfoldable pub look_up : InvoiceDraft → Action W (Option ProviderInvoice)
  look_up draft = call env.meanwhile (env.find_invoice draft.tag)

  -- `if reconciled is None: raise`
  unfoldable pub or_raise : ProviderError → Option ProviderInvoice → Action W ProviderInvoice
  or_raise e none = raise (provider e)
  or_raise e (some reconciled) = pure reconciled

  unfoldable pub settle_smoke : InvoiceDraft → Result ProviderInvoice → Action W ProviderInvoice
  settle_smoke draft (ok created) = pure created
  settle_smoke draft (err (provider (unknown_outcome operation))) =
      look_up draft >>= or_raise (unknown_outcome operation)
  settle_smoke draft (err e) = raise e

  unfoldable pub create_smoke : SmokeBatchResult → InvoiceDraft → Action W SmokeBatchResult
  create_smoke result draft = do
    answer ← attempt (call env.meanwhile (env.create_invoice draft))
    created ← settle_smoke draft answer
    now ← read_clock env.clock
    record_smoke draft created.id now
    pure (with_invoice result created)

  unfoldable pub issue_smoke :
      SmokeBatchResult → InvoiceDraft → ℕ → Option ProviderInvoice → Action W SmokeBatchResult
  issue_smoke result draft now (some existing) =
      record_smoke draft existing.id now >> pure (with_reused result existing)
  issue_smoke result draft now none = create_smoke result draft

  -- One pass of the loop.
  unfoldable pub run_one : String → ℕ → ℕ → SmokeBatchResult → Action W SmokeBatchResult
  run_one reference amount ordinal result = do
    now ← read_clock env.clock
    let draft = build_smoke_invoice (reference <> (":" <> env.text_of ordinal)) amount now
    transact (register_smoke draft now)
    existing ← look_up draft
    issue_smoke result draft now existing

  -- The passes with the ordinals from one on.
  unfoldable pub run_from : String → ℕ → ℕ → ℕ → SmokeBatchResult → Action W SmokeBatchResult
  run_from reference amount ordinal zero result = pure result
  run_from reference amount ordinal (suc n) result =
      run_one reference amount ordinal result >>= run_from reference amount (suc ordinal) n

  unfoldable pub run : String → ℕ → ℕ → Action W SmokeBatchResult
  run reference count amount =
      run_from reference amount 0 count (record { invoices = []; reused = 0 })
