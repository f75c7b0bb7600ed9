-- ===== src/TransferStore/Constraints.antt =====
-- The constraints of `transfer_jobs` under the UPDATE statements of the stores.
use starkbank_backend_challe.Base.{
  ◌≡◌, ap, ◌∙◌, String, false, not, ◌&&◌, ◌==◌, holds, exists_where, is_unique-update_one, Bool,
  true, none, some, List, arith, update_where, is_unique, is_unique-update_same,
  is_unique-update_null, every-update_same,
}
use starkbank_backend_challe.Base.Int.{ℤ, pos, ltb_ℤ, leb_ℤ}
use starkbank_backend_challe.Schema.{TransferJobRow, transfer_jobs_constraints}

-- The columns under a constraint that no UPDATE writes.
pub record IsSameJob (x y : TransferJobRow) : Type 0 where
  pub id : y.id ≡ x.id
  pub event_id : y.event_id ≡ x.event_id
  pub invoice_id : y.invoice_id ≡ x.invoice_id
  pub external_id : y.external_id ≡ x.external_id
  pub tag : y.tag ≡ x.tag
  pub amount : y.amount ≡ x.amount
  pub fee : y.fee ≡ x.fee
  pub net_amount : y.net_amount ≡ x.net_amount
  pub created_at : y.created_at ≡ x.created_at

module _ (p : TransferJobRow → Bool) (f : TransferJobRow → TransferJobRow)
    (same : (x : TransferJobRow) → IsSameJob x (f x)) (rows : List TransferJobRow) where
  others-update :
      transfer_jobs_constraints rows ≡ true
      → is_unique (λ r. r.provider_transfer_id) (update_where p f rows) ≡ true
      → transfer_jobs_constraints (update_where p f rows) ≡ true
  unfolding transfer_jobs_constraints
  others-update h provider = ground (
    arith,
    provider,
    is_unique-update_same (λ r. some r.id) p f (λ x. ap some (same x).id) rows,
    is_unique-update_same (λ r. some r.event_id) p f (λ x. ap some (same x).event_id) rows,
    is_unique-update_same (λ r. some r.invoice_id) p f (λ x. ap some (same x).invoice_id) rows,
    is_unique-update_same (λ r. some r.external_id) p f (λ x. ap some (same x).external_id) rows,
    is_unique-update_same (λ r. some r.tag) p f (λ x. ap some (same x).tag) rows,
    every-update_same (λ r. ltb_ℤ (pos 0) r.amount) p f
        (λ x. ap (λ (a : ℤ). ltb_ℤ (pos 0) a) (same x).amount) rows,
    every-update_same (λ r. leb_ℤ (pos 0) r.fee) p f
        (λ x. ap (λ (a : ℤ). leb_ℤ (pos 0) a) (same x).fee) rows,
    every-update_same (λ r. ltb_ℤ (pos 0) r.net_amount) p f
        (λ x. ap (λ (a : ℤ). ltb_ℤ (pos 0) a) (same x).net_amount) rows,
  )

  pub constraints-update_same :
      ((x : TransferJobRow) → (f x).provider_transfer_id ≡ x.provider_transfer_id)
      → transfer_jobs_constraints rows ≡ true
      → transfer_jobs_constraints (update_where p f rows) ≡ true
  unfolding transfer_jobs_constraints
  constraints-update_same provider h =
      others-update h
        (is_unique-update_same (λ r. r.provider_transfer_id) p f provider rows ∙ (ground arith))

  pub constraints-update_null :
      ((x : TransferJobRow) → (f x).provider_transfer_id ≡ none)
      → transfer_jobs_constraints rows ≡ true
      → transfer_jobs_constraints (update_where p f rows) ≡ true
  unfolding transfer_jobs_constraints
  constraints-update_null null h =
      others-update h
        (is_unique-update_null (λ r. r.provider_transfer_id) p f null rows (ground arith))

-- The row with an id may be given any transfer that no other row has.
pub constraints-update_one :
    (id new : String) (f : TransferJobRow → TransferJobRow)
    → ((x : TransferJobRow) → IsSameJob x (f x))
    → ((x : TransferJobRow) → (f x).provider_transfer_id ≡ some new)
    → (rows : List TransferJobRow)
    → exists_where (λ r. not (r.id == id) && holds r.provider_transfer_id new) rows ≡ false
    → transfer_jobs_constraints rows ≡ true
    → transfer_jobs_constraints (update_where (λ r. r.id == id) f rows) ≡ true
unfolding transfer_jobs_constraints
constraints-update_one id new f same writes rows room h =
    others-update (λ r. r.id == id) f same rows h
      (is_unique-update_one (λ r. r.provider_transfer_id) (λ r. r.id) id new f writes rows
        (ground (arith, h)) room (ground (arith, h)))
