-- ===== src/EventStore/Owners.antt =====
-- Recording an event never takes an invoice away from its owner.
use starkbank_backend_challe.Base.{
  ℕ, ◌≡◌, ◌∙◌, Bool, false, ◌&&◌, Option, none, some, List, [], ◌∷◌, String, ◌==◌, is_none,
  update_where, arith, RowByRow, RowByRow-refl, RowByRow-trans, RowByRow-update_where,
}
use starkbank_backend_challe.Base.Int.{ℤ}
use starkbank_backend_challe.Domain.Errors.{ok}
use starkbank_backend_challe.Domain.Events.{
  CreditedInvoiceEvent, TransferLifecycleEvent, VerifiedEvent, EventRecord, credited_invoice,
  ignored, transfer_lifecycle,
}
use starkbank_backend_challe.Domain.Status.{
  EventWriteResult, queued, duplicate_event, is_queued, is_transfer_updated,
}
use starkbank_backend_challe.Schema.{Database, OwnedInvoiceRow, TransferJobRow}
use starkbank_backend_challe.Transaction.{Tx, pure, gets, ◌>>=◌, ◌>>◌}
use starkbank_backend_challe.Transaction.Keeps.{
  Keeps, Keeps-pure, Keeps-gets, Keeps-if, Keeps-bind, Keeps-savepoint,
}
use starkbank_backend_challe.EventStore.{
  insert_event, set_outcome, mark_duplicate, mark_invoice_unknown, new_job, insert_job, enqueue,
  queue_transfer, bind_owner, confirm_draft, owns_by_tag, owns_bound, owns_found, owns_invoice,
  is_recoverable, requeue, try_again, recover, recover_duplicate, initial_outcome, transfer_outcome,
  update_transfer, record_transfer_event, credit, record_other, record_kind, record_event,
}

-- The same owner, and the invoice that it has.
pub record OwnerKeeps (x y : OwnedInvoiceRow) : Type 0 where
  pub tag : y.tag ≡ x.tag
  pub source : y.source ≡ x.source
  pub draft_id : y.draft_id ≡ x.draft_id
  pub created_at : y.created_at ≡ x.created_at
  pub bound : is_none x.provider_invoice_id ≡ false → y.provider_invoice_id ≡ x.provider_invoice_id

OwnerKeeps-refl : (x : OwnedInvoiceRow) → OwnerKeeps x x
OwnerKeeps-refl x = ground arith

OwnerKeeps-trans : (x y z : OwnedInvoiceRow) → OwnerKeeps x y → OwnerKeeps y z → OwnerKeeps x z
OwnerKeeps-trans x y z h k = record {
  tag = k.tag ∙ h.tag;
  source = k.source ∙ h.source;
  draft_id = k.draft_id ∙ h.draft_id;
  created_at = k.created_at ∙ h.created_at;
  bound = λ b. let first = h.bound b in k.bound (rw first b) ∙ first;
}

abbrev pub Owners : Database → Database → Type 0
Owners db db' = RowByRow OwnerKeeps db.owned_invoices db'.owned_invoices

same : (db : Database) → Owners db db
same db = RowByRow-refl OwnerKeeps OwnerKeeps-refl db.owned_invoices

trans : (x y z : Database) → Owners x y → Owners y z → Owners x z
trans x y z h k =
    RowByRow-trans OwnerKeeps OwnerKeeps-trans x.owned_invoices y.owned_invoices z.owned_invoices h
      k

-- A transaction that writes other tables only.
same-Owners : (db db' : Database) → db'.owned_invoices ≡ db.owned_invoices → Owners db db'
same-Owners db db' e = rw e (same db)

bind-Owners :
    {A B : Type 0} (m : Tx A) (f : A → Tx B)
    → Keeps Owners m
    → ((a : A) → Keeps Owners (f a))
    → Keeps Owners (m >>= f)
bind-Owners m f h k = Keeps-bind Owners trans m f h k

bind_owner-Owners :
    (owner : OwnedInvoiceRow) (id : String) (at : ℕ) → Keeps Owners (bind_owner owner id at)
unfolding bind_owner
bind_owner-Owners owner id at = Keeps-savepoint Owners same _ λ db a db' e.
    let p : OwnedInvoiceRow → Bool = λ r. r.tag == owner.tag && is_none r.provider_invoice_id in
    let f : OwnedInvoiceRow → OwnedInvoiceRow =
      λ r. record r { provider_invoice_id = some id; updated_at = at } in
    let kept =
      RowByRow-update_where OwnerKeeps p f OwnerKeeps-refl (λ x h. ground arith)
        db.owned_invoices in
    let rows : db'.owned_invoices ≡ update_where p f db.owned_invoices = ground arith in
    rw rows kept

confirm_draft-Owners :
    (owner : OwnedInvoiceRow) (id : String) (at : ℕ) → Keeps Owners (confirm_draft owner id at)
unfolding confirm_draft
confirm_draft-Owners owner id at db a db' e = same-Owners db db' (ground arith)

owns_by_tag-Owners :
    (owners : List OwnedInvoiceRow) (id : String) (at : ℕ) → Keeps Owners (owns_by_tag owners id at)
unfolding owns_by_tag
owns_by_tag-Owners [] id at = Keeps-pure Owners same false
owns_by_tag-Owners (owner ∷ []) id at =
    Keeps-if Owners _ (pure false) _ (Keeps-pure Owners same false) (
      bind-Owners (bind_owner owner id at) _ (bind_owner-Owners owner id at) λ bound.
        Keeps-if Owners bound (confirm_draft owner id at) (pure false)
          (confirm_draft-Owners owner id at) (Keeps-pure Owners same false))
owns_by_tag-Owners (owner ∷ other ∷ owners) id at = Keeps-pure Owners same false

owns_found-Owners :
    (event : CreditedInvoiceEvent) (at : ℕ) (owner : Option OwnedInvoiceRow)
    → Keeps Owners (owns_found event at owner)
unfolding owns_found owns_bound
owns_found-Owners event at (some owner) =
    bind-Owners (gets _) _ (Keeps-gets Owners same _) λ foreign.
      Keeps-if Owners foreign (pure false) (confirm_draft owner event.invoice_id at)
        (Keeps-pure Owners same false) (confirm_draft-Owners owner event.invoice_id at)
owns_found-Owners event at none =
    bind-Owners (gets _) _ (Keeps-gets Owners same _)
      λ matches. owns_by_tag-Owners matches event.invoice_id at

pub owns_invoice-Owners :
    (event : CreditedInvoiceEvent) (at : ℕ) → Keeps Owners (owns_invoice event at)
unfolding owns_invoice
owns_invoice-Owners event at =
    bind-Owners (gets _) _ (Keeps-gets Owners same _) (owns_found-Owners event at)

insert_event-Owners :
    (rec : EventRecord) (outcome : EventWriteResult) → Keeps Owners (insert_event rec outcome)
unfolding insert_event
insert_event-Owners rec outcome db a db' e = same-Owners db db' (ground arith)

mark_duplicate-Owners : (event_id : String) → Keeps Owners (mark_duplicate event_id)
unfolding mark_duplicate set_outcome
mark_duplicate-Owners event_id db a db' e = same-Owners db db' (ground arith)

mark_invoice_unknown-Owners : (event_id : String) → Keeps Owners (mark_invoice_unknown event_id)
unfolding mark_invoice_unknown set_outcome
mark_invoice_unknown-Owners event_id db a db' e = same-Owners db db' (ground arith)

insert_job-Owners : (job : TransferJobRow) → Keeps Owners (insert_job job)
unfolding insert_job
insert_job-Owners job db a db' e = same-Owners db db' (ground arith)

module _ (job_id : String) (event : CreditedInvoiceEvent) (net_amount : ℤ) (at : ℕ) where
  pub queue_transfer-Owners : Keeps Owners (queue_transfer job_id event net_amount at)
  unfolding queue_transfer enqueue
  queue_transfer-Owners = bind-Owners (gets _) _ (Keeps-gets Owners same _) λ present.
      Keeps-if Owners present (mark_duplicate event.event_id) _
        (mark_duplicate-Owners event.event_id)
        (bind-Owners (insert_job (new_job job_id event net_amount at)) _
          (insert_job-Owners (new_job job_id event net_amount at))
          λ inserted.
            Keeps-if Owners inserted (pure queued) (mark_duplicate event.event_id)
              (Keeps-pure Owners same queued) (mark_duplicate-Owners event.event_id))

  set_queued-Owners : Keeps Owners (set_outcome event.event_id queued >> pure queued)
  unfolding set_outcome
  set_queued-Owners db a db' e = same-Owners db db' (ground arith)

  pub requeue-Owners : Keeps Owners (requeue job_id event net_amount at)
  unfolding requeue
  requeue-Owners =
      bind-Owners (queue_transfer job_id event net_amount at) _ queue_transfer-Owners λ outcome.
        Keeps-if Owners (is_queued outcome) (set_outcome event.event_id queued >> pure queued)
          (pure outcome) set_queued-Owners (Keeps-pure Owners same outcome)

  try_again-Owners : Keeps Owners (try_again job_id event net_amount at)
  unfolding try_again
  try_again-Owners = bind-Owners (owns_invoice event at) _ (owns_invoice-Owners event at) λ owned.
      Keeps-if Owners owned (requeue job_id event net_amount at) (pure duplicate_event)
        requeue-Owners (Keeps-pure Owners same duplicate_event)

module _ (job_id : String) (rec : EventRecord) where
  recover-Owners :
      (event : VerifiedEvent) (net : Option ℤ) → Keeps Owners (recover job_id rec event net)
  unfolding recover
  recover-Owners (credited_invoice event) (some net_amount) =
      bind-Owners (gets _) _ (Keeps-gets Owners same _) λ stored.
        Keeps-if Owners (is_recoverable rec stored)
          (try_again job_id event net_amount rec.received_at) (pure duplicate_event)
          (try_again-Owners job_id event net_amount rec.received_at)
          (Keeps-pure Owners same duplicate_event)
  recover-Owners (credited_invoice event) none = Keeps-pure Owners same duplicate_event
  recover-Owners (ignored event) net = Keeps-pure Owners same duplicate_event
  recover-Owners (transfer_lifecycle event) net = Keeps-pure Owners same duplicate_event

  credit-Owners :
      (event : VerifiedEvent) (net : Option ℤ) → Keeps Owners (credit job_id rec event net)
  unfolding credit
  credit-Owners (credited_invoice event) (some net_amount) =
      bind-Owners (owns_invoice event rec.received_at) _ (owns_invoice-Owners event rec.received_at)
        λ owned.
          Keeps-if Owners owned (queue_transfer job_id event net_amount rec.received_at)
            (mark_invoice_unknown event.event_id)
            (queue_transfer-Owners job_id event net_amount rec.received_at)
            (mark_invoice_unknown-Owners event.event_id)
  credit-Owners (credited_invoice event) none = Keeps-pure Owners same _
  credit-Owners (ignored event) net = Keeps-pure Owners same _
  credit-Owners (transfer_lifecycle event) net = Keeps-pure Owners same _

  update_transfer-Owners :
      (event : TransferLifecycleEvent) (outcome : EventWriteResult)
      → Keeps Owners (update_transfer rec event outcome)
  unfolding update_transfer
  update_transfer-Owners event outcome =
      Keeps-if Owners (is_transfer_updated outcome) _ (pure outcome)
        (λ db a db' e. same-Owners db db' (ground arith)) (Keeps-pure Owners same outcome)

  record_other-Owners : Keeps Owners (record_other job_id rec)
  unfolding record_other recover_duplicate
  record_other-Owners =
      let outcome = initial_outcome rec.event rec.net_amount in
      bind-Owners (insert_event rec outcome) _ (insert_event-Owners rec outcome) λ inserted.
        Keeps-if Owners inserted (credit job_id rec rec.event rec.net_amount)
          (recover job_id rec rec.event rec.net_amount) (credit-Owners rec.event rec.net_amount)
          (recover-Owners rec.event rec.net_amount)

  record_kind-Owners : (event : VerifiedEvent) → Keeps Owners (record_kind job_id rec event)
  unfolding record_kind record_transfer_event
  record_kind-Owners (transfer_lifecycle event) =
      bind-Owners (gets _) _ (Keeps-gets Owners same _) λ (job : Option TransferJobRow).
        let outcome = transfer_outcome job event.updated_at in
        bind-Owners (insert_event rec outcome) _ (insert_event-Owners rec outcome) λ inserted.
          Keeps-if Owners inserted (update_transfer rec event outcome) (pure duplicate_event)
            (update_transfer-Owners event outcome) (Keeps-pure Owners same duplicate_event)
  record_kind-Owners (credited_invoice event) = record_other-Owners
  record_kind-Owners (ignored event) = record_other-Owners

  -- Recording an event keeps every owner, and an owner that has an invoice keeps that invoice: no
  -- delivery binds it to another one.
  pub record_event-Owners :
      (db : Database) (outcome : EventWriteResult) (db' : Database)
      → record_event job_id rec db ≡ ok (outcome, db')
      → Owners db db'
  unfolding record_event
  record_event-Owners = record_kind-Owners rec.event
