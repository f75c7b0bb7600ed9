-- ===== src/Smoke/Counts.antt =====
-- application/smoke.py: what a finished run has gathered.
use starkbank_backend_challe.Base.{
  ℕ, zero, suc, ◌+◌, ◌≤◌, ◌≡◌, refl, ap, Option, none, some, List, [], ◌∷◌, ◌++◌, String, ◌<>◌,
  length, arith,
}
use starkbank_backend_challe.Domain.Errors.{ok}
use starkbank_backend_challe.Domain.Models.{InvoiceDraft, ProviderInvoice}
use starkbank_backend_challe.InvoiceStore.{register_smoke}
use starkbank_backend_challe.Schema.{Database}
use starkbank_backend_challe.Service.{
  transact, attempt, read_clock, call, Yields, Yields-pure, Yields-bind, Yields-then,
}
use starkbank_backend_challe.Smoke.{
  SmokeBatchResult, SmokeEnv, with_invoice, with_reused, build_smoke_invoice, record_smoke, look_up,
  settle_smoke, create_smoke, issue_smoke, run_one, run_from, run,
}

length-snoc : {A : Type 0} (xs : List A) (x : A) → length (xs ++ x ∷ []) ≡ suc (length xs)
length-snoc [] x = refl
length-snoc (y ∷ xs) x = ap suc (length-snoc xs x)

-- One more invoice, which may have been there before.
record Grows (before after : SmokeBatchResult) : Type 0 where
  one_more : length after.invoices ≡ suc (length before.invoices)
  reused_at_most : after.reused ≤ suc before.reused

module _ {W : Type 0} (env : SmokeEnv W) (namespace : String) where
  create_smoke-Grows :
      (result : SmokeBatchResult) (draft : InvoiceDraft)
      → Yields (Grows result) (create_smoke env namespace result draft)
  unfolding create_smoke with_invoice
  create_smoke-Grows result draft =
      Yields-then (Grows result) (attempt (call env.meanwhile (env.create_invoice draft))) _
        (λ answer.
          Yields-then (Grows result) (settle_smoke env namespace draft answer) _ (λ created.
            Yields-then (Grows result) (read_clock env.clock) _ (λ now.
              Yields-then (Grows result) (record_smoke env namespace draft created.id now) _ (λ u.
                Yields-pure (Grows result) (with_invoice result created) (record {
                  one_more = length-snoc result.invoices created;
                  reused_at_most = omega arith;
                })))))

  issue_smoke-Grows :
      (result : SmokeBatchResult) (draft : InvoiceDraft) (now : ℕ)
      (existing : Option ProviderInvoice)
      → Yields (Grows result) (issue_smoke env namespace result draft now existing)
  unfolding issue_smoke with_reused
  issue_smoke-Grows result draft now none = create_smoke-Grows result draft
  issue_smoke-Grows result draft now (some existing) =
      Yields-then (Grows result) (record_smoke env namespace draft existing.id now) _ (λ u.
        Yields-pure (Grows result) (with_reused result existing) (record {
          one_more = length-snoc result.invoices existing;
          reused_at_most = omega arith;
        }))

  run_one-Grows :
      (reference : String) (amount ordinal : ℕ) (result : SmokeBatchResult)
      → Yields (Grows result) (run_one env namespace reference amount ordinal result)
  unfolding run_one
  run_one-Grows reference amount ordinal result =
      Yields-then (Grows result) (read_clock env.clock) _ (λ now.
        let draft =
          build_smoke_invoice env namespace (reference <> (":" <> env.text_of ordinal)) amount
            now in
        Yields-then (Grows result) (transact (register_smoke draft now)) _ (λ u.
          Yields-then (Grows result) (look_up env namespace draft) _
            (λ existing. issue_smoke-Grows result draft now existing)))

  -- `n` more invoices.
  abbrev GrowsBy : ℕ → SmokeBatchResult → SmokeBatchResult → Type 0
  GrowsBy n before after =
      (length after.invoices ≡ n + length before.invoices) × (after.reused ≤ n + before.reused)

  run_from-GrowsBy :
      (reference : String) (amount ordinal n : ℕ) (result : SmokeBatchResult)
      → Yields (GrowsBy n result) (run_from env namespace reference amount ordinal n result)
  unfolding run_from
  run_from-GrowsBy reference amount ordinal zero result =
      Yields-pure (GrowsBy 0 result) result (omega arith, omega arith)
  run_from-GrowsBy reference amount ordinal (suc n) result =
      Yields-bind (Grows result) (GrowsBy (suc n) result)
        (run_one env namespace reference amount ordinal result) _
        (run_one-Grows reference amount ordinal result)
        (λ middle g. record {
          yielded = λ db w after db' w' e.
              let rest =
                (run_from-GrowsBy reference amount (suc ordinal) n middle).yielded db w after db' w'
                  e in
              let one = g.one_more in
              let some_reused = g.reused_at_most in
              (omega (arith, rest.0, one), omega (arith, rest.1, some_reused));
        })

  -- A run that returns has as many invoices as it was asked for, and says of at most that many that
  -- the provider had them before.
  pub run_counts :
      (reference : String) (count amount : ℕ) (db db' : Database) (w w' : W)
      (result : SmokeBatchResult)
      → run env namespace reference count amount db w ≡ (ok result, db', w')
      → (length result.invoices ≡ count) × (result.reused ≤ count)
  unfolding run
  run_counts reference count amount db db' w w' result h =
      let grown =
        (run_from-GrowsBy reference amount 0 count (record { invoices = []; reused = 0 })).yielded
          db w result db' w' h in
      (omega (arith, grown.0), omega (arith, grown.1))
