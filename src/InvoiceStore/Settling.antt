-- ===== src/InvoiceStore/Settling.antt =====
-- When a run ends.
use starkbank_backend_challe.Base.{
  ℕ, ◌≡◌, refl, subst, ◌⊎◌, inl, inr, true, ◌&&◌, none, some, List, [], ◌∷◌, String, ◌==◌, eq_iff,
  eq_refl, eqb, arith, RowByRow, RowByRow-refl, RowByRow-update_where, first_where, exists_where,
  update_where, Bool-cases, Option-cases,
}
use starkbank_backend_challe.Domain.Errors.{ok}
use starkbank_backend_challe.Domain.Status.{TrialStatus, BatchStatus, is_degraded}
use starkbank_backend_challe.Schema.{Database, TrialRunRow, InvoiceBatchRow}
use starkbank_backend_challe.Transaction.{bind_inv}
use starkbank_backend_challe.InvoiceStore.{
  settled_status, settled, remaining, degraded_run, completed_run, settle_run, one_batch, settle,
}

-- A run after a batch has been settled: as it was, completed with every one of its batches, or
-- degraded with one of them.
abbrev pub RunSettles : Database → TrialRunRow → TrialRunRow → Type 0
RunSettles db' x y =
    (y ≡ x)
    ⊎ ((y.status ≡ TrialStatus.completed) × (y.active_marker ≡ none) × (remaining x.id db' ≡ 0))
    ⊎ ((y.status ≡ TrialStatus.degraded)
        × (y.active_marker ≡ none)
        × (exists_where (λ b. b.run_id == x.id && is_degraded b.status) db'.invoice_batches ≡ true))

settle_run_rows :
    (run_id : String) (status : BatchStatus) (now : ℕ) (db db' : Database)
    → settle_run run_id status now db ≡ ok (tt, db')
    → (db'.invoice_batches ≡ db.invoice_batches)
      × ((db'.trial_runs ≡ db.trial_runs)
          ⊎ ((is_degraded status ≡ true)
              × (db'.trial_runs ≡ update_where (λ r. r.id == run_id) degraded_run db.trial_runs))
          ⊎ ((remaining run_id db ≡ 0)
              × (db'.trial_runs
                  ≡ update_where (λ r. r.id == run_id) (completed_run now) db.trial_runs)))
unfolding settle_run
settle_run_rows run_id status now db db' e = elim (Bool-cases (is_degraded status)) [
  | inl bad ↦ let done = rw bad at e in (ground arith, inr (inl (bad, ground arith)))
  | inr good ↦ elim (Bool-cases (eqb (remaining run_id db) 0)) [
    | inl all_done ↦
        let done = rw (good, all_done) at e in
        (ground arith, inr (inr (ground arith, ground arith)))
    | inr some_left ↦ let done = rw (good, some_left) at e in (ground arith, inl (ground arith))
  ]
]

one_batch_stored :
    (id : String) (db : Database) (batch : InvoiceBatchRow) (mid : Database)
    → one_batch id db ≡ ok (batch, mid)
    → (first_where (λ r. r.id == id) db.invoice_batches ≡ some batch) × (mid ≡ db)
unfolding one_batch
one_batch_stored id db batch mid e =
    elim (Option-cases (first_where (λ r. r.id == id) db.invoice_batches)) [
      | inl missing ↦ ground (arith, missing)
      | inr (r, found) ↦ (ground (arith, found), ground (arith, found))
    ]

run-RunSettles :
    (run_id : String) (db' : Database) (f : TrialRunRow → TrialRunRow)
    → ((x : TrialRunRow) → x.id ≡ run_id → RunSettles db' x (f x))
    → (runs : List TrialRunRow)
    → RowByRow (RunSettles db') runs (update_where (λ r. r.id == run_id) f runs)
run-RunSettles run_id db' f step runs =
    RowByRow-update_where (RunSettles db') (λ r. r.id == run_id) f (λ x. inl refl)
      (λ x hit. step x ((eq_iff x.id run_id).0 hit)) runs

settle_run-RunSettles :
    (run_id : String) (status : BatchStatus) (now : ℕ) (db db' : Database)
    → (is_degraded status ≡ true
        → exists_where (λ b. b.run_id == run_id && is_degraded b.status) db.invoice_batches ≡ true)
    → settle_run run_id status now db ≡ ok (tt, db')
    → RowByRow (RunSettles db') db.trial_runs db'.trial_runs
unfolding degraded_run completed_run remaining
settle_run-RunSettles run_id status now db db' marks e =
    let (batches, runs) = settle_run_rows run_id status now db db' e in
    elim runs [
      | inl same ↦ rw same (RowByRow-refl (RunSettles db') (λ x. inl refl) db.trial_runs)
      | inr (inl (bad, rows)) ↦ rw rows (
          run-RunSettles run_id db' degraded_run
            (λ x same. inr (inr (refl, refl, rw (same, batches) (marks bad)))) db.trial_runs)
      | inr (inr (all_done, rows)) ↦ rw rows (
          run-RunSettles run_id db' (completed_run now)
            (λ x same. inr (inl (refl, refl, rw (same, batches) all_done))) db.trial_runs)
    ]

settled-marks :
    (batch_id run_id : String) (status : BatchStatus) (now : ℕ) (batch : InvoiceBatchRow)
    (batches : List InvoiceBatchRow)
    → first_where (λ r. r.id == batch_id) batches ≡ some batch
    → batch.run_id ≡ run_id
    → is_degraded status ≡ true
    → exists_where
        (λ b. b.run_id == run_id && is_degraded b.status)
        (update_where (λ r. r.id == batch_id) (settled status now) batches)
      ≡ true
unfolding settled
settled-marks batch_id run_id status now batch [] found same bad = ground arith
settled-marks batch_id run_id status now batch (x ∷ batches) found same bad =
    ground (arith, eq_refl run_id, settled-marks batch_id run_id status now batch batches)

-- When settling a batch returns, every run is as it was, or it is completed and each of its batches
-- is, or it is degraded and one of its batches is. A run that is ended so gives up its marker.
pub settle-RunSettles :
    (batch_id : String) (now : ℕ) (db : Database) (status : BatchStatus) (db' : Database)
    → settle batch_id now db ≡ ok (status, db')
    → RowByRow (RunSettles db') db.trial_runs db'.trial_runs
unfolding settle
settle-RunSettles batch_id now db status db' e =
    let (batch, db₁, e₁, rest₁) = bind_inv (one_batch batch_id) _ db e in
    let (found, same_db) = one_batch_stored batch_id db batch db₁ e₁ in
    let decided = settled_status batch db₁ in
    let db₂ : Database = record db₁ {
      invoice_batches =
          update_where (λ r. r.id == batch_id) (settled decided now) db₁.invoice_batches;
    } in
    let (_, db₃, e₃, rest₃) = bind_inv (settle_run batch.run_id decided now) _ db₂ rest₁ in
    let runs =
      settle_run-RunSettles batch.run_id decided now db₂ db₃
        (settled-marks batch_id batch.run_id decided now batch db₁.invoice_batches
          (rw same_db found) refl)
        e₃ in
    let last : db₃ ≡ db' = ground arith in
    subst (λ (d : Database). RowByRow (RunSettles d) db.trial_runs d.trial_runs) last
      (rw same_db at runs)
