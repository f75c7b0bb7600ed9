-- ===== src/EventStore/Stored.antt =====
-- persistence/event_store.py: an event that has been recorded stands in the database.
use starkbank_backend_challe.Base.{
  ℕ, ◌≡◌, refl, Bool, true, Option, none, some, List, [], ◌∷◌, ◌++◌, String, ◌==◌, arith,
  exists_where, exists_where-update, first_where, ap, ◌∙◌, update_where, is_unique-append, eq_refl,
}
use starkbank_backend_challe.Base.Int.{ℤ}
use starkbank_backend_challe.Domain.Errors.{ok}
use starkbank_backend_challe.Domain.Events.{
  VerifiedEvent, CreditedInvoiceEvent, TransferLifecycleEvent, EventRecord, credited_invoice,
  ignored, transfer_lifecycle, event_id_of,
}
use starkbank_backend_challe.Domain.Status.{EventWriteResult, queued, duplicate_event, is_queued}
use starkbank_backend_challe.Schema.{
  Database, WebhookEventRow, TransferJobRow, webhook_events_constraints,
}
use starkbank_backend_challe.Transaction.{
  Tx, pure, gets, ◌>>=◌, ◌>>◌, bind_inv, touch_webhook_events,
}
use starkbank_backend_challe.Transaction.Keeps.{Keeps, Keeps-pure, Keeps-gets, Keeps-if, Keeps-bind}
use starkbank_backend_challe.EventStore.SameJobs.{owns_invoice-Same}
use starkbank_backend_challe.EventStore.{
  event_row, insert_event, mark_duplicate, mark_invoice_unknown, insert_job, enqueue, new_job,
  queue_transfer, owns_invoice, requeue, try_again, is_recoverable, recover, recover_duplicate,
  initial_outcome, credit, update_transfer, transfer_outcome, record_transfer_event, record_other,
  record_kind, record_event, record_ignored_workspace,
}

abbrev pub is_stored : String → Database → Bool
is_stored id db = exists_where (λ r. r.id == id) db.webhook_events

-- The id stays stored.
abbrev StaysStored : String → Database → Database → Type 0
StaysStored id db db' = is_stored id db ≡ true → is_stored id db' ≡ true

exists_where-last :
    (p : WebhookEventRow → Bool) (rows : List WebhookEventRow) (row : WebhookEventRow)
    → p row ≡ true
    → exists_where p (rows ++ row ∷ []) ≡ true
exists_where-last p [] row h = ground (arith, h)
exists_where-last p (r ∷ rows) row h = ground (arith, exists_where-last p rows row h)

module _ (id : String) where
  same : (db : Database) → StaysStored id db db
  same db h = h

  trans : (x y z : Database) → StaysStored id x y → StaysStored id y z → StaysStored id x z
  trans x y z f g h = g (f h)

  set_outcome-same :
      (event_id : String) (outcome : EventWriteResult) (rows : List WebhookEventRow)
      → exists_where
          (λ r. r.id == id)
          (update_where (λ r. r.id == event_id) (λ r. record r { outcome = outcome }) rows)
        ≡ exists_where (λ r. r.id == id) rows
  set_outcome-same event_id outcome rows =
      exists_where-update (λ r. r.id == id) (λ r. r.id == event_id)
        (λ r. record r { outcome = outcome }) (λ r. refl) rows

  mark_duplicate-StaysStored :
      (event_id : String) → Keeps (StaysStored id) (mark_duplicate event_id)
  unfolding mark_duplicate
  mark_duplicate-StaysStored event_id db a db' e h =
      ground (
        arith,
        e,
        h,
        set_outcome-same event_id EventWriteResult.duplicate_invoice db.webhook_events,
      )

  mark_invoice_unknown-StaysStored :
      (event_id : String) → Keeps (StaysStored id) (mark_invoice_unknown event_id)
  unfolding mark_invoice_unknown
  mark_invoice_unknown-StaysStored event_id db a db' e h =
      ground
        (arith, e, h, set_outcome-same event_id EventWriteResult.invoice_unknown db.webhook_events)

  insert_job-StaysStored : (job : TransferJobRow) → Keeps (StaysStored id) (insert_job job)
  unfolding insert_job
  insert_job-StaysStored job db a db' e h = ground (arith, e, h)

  queue_transfer-StaysStored :
      (job_id : String) (event : CreditedInvoiceEvent) (net : ℤ) (at : ℕ)
      → Keeps (StaysStored id) (queue_transfer job_id event net at)
  unfolding queue_transfer enqueue
  queue_transfer-StaysStored job_id event net at =
      Keeps-bind (StaysStored id) trans (gets _) _ (Keeps-gets (StaysStored id) same _) (λ present.
        Keeps-if (StaysStored id) present (mark_duplicate event.event_id) _
          (mark_duplicate-StaysStored event.event_id)
          (Keeps-bind (StaysStored id) trans (insert_job (new_job job_id event net at)) _
            (insert_job-StaysStored (new_job job_id event net at))
            (λ inserted.
              Keeps-if (StaysStored id) inserted (pure queued) (mark_duplicate event.event_id)
                (Keeps-pure (StaysStored id) same queued)
                (mark_duplicate-StaysStored event.event_id))))

  owns_invoice-StaysStored :
      (event : CreditedInvoiceEvent) (at : ℕ) → Keeps (StaysStored id) (owns_invoice event at)
  owns_invoice-StaysStored event at db a db' e h =
      let kept = owns_invoice-Same event at db a db' e in
      ap (exists_where (λ r. r.id == id)) kept.1 ∙ h

  set_outcome-StaysStored :
      (event_id : String) (outcome : EventWriteResult)
      → Keeps (StaysStored id) (
          touch_webhook_events
            (update_where (λ r. r.id == event_id) (λ r. record r { outcome = outcome }))
          >> pure outcome)
  set_outcome-StaysStored event_id outcome db a db' e h =
      ground (arith, e, h, set_outcome-same event_id outcome db.webhook_events)

  requeue-StaysStored :
      (job_id : String) (event : CreditedInvoiceEvent) (net : ℤ) (at : ℕ)
      → Keeps (StaysStored id) (requeue job_id event net at)
  unfolding requeue
  requeue-StaysStored job_id event net at =
      Keeps-bind (StaysStored id) trans (queue_transfer job_id event net at) _
        (queue_transfer-StaysStored job_id event net at)
        (λ outcome.
          Keeps-if (StaysStored id) (is_queued outcome) _ (pure outcome)
            (set_outcome-StaysStored event.event_id queued)
            (Keeps-pure (StaysStored id) same outcome))

  try_again-StaysStored :
      (job_id : String) (event : CreditedInvoiceEvent) (net : ℤ) (at : ℕ)
      → Keeps (StaysStored id) (try_again job_id event net at)
  unfolding try_again
  try_again-StaysStored job_id event net at =
      Keeps-bind (StaysStored id) trans (owns_invoice event at) _
        (owns_invoice-StaysStored event at)
        (λ owned.
          Keeps-if (StaysStored id) owned (requeue job_id event net at) (pure duplicate_event)
            (requeue-StaysStored job_id event net at)
            (Keeps-pure (StaysStored id) same duplicate_event))

  recover-StaysStored :
      (job_id : String) (rec : EventRecord) (event : VerifiedEvent) (net : Option ℤ)
      → Keeps (StaysStored id) (recover job_id rec event net)
  unfolding recover
  recover-StaysStored job_id rec (credited_invoice event) (some net) =
      Keeps-bind (StaysStored id) trans (gets _) _ (Keeps-gets (StaysStored id) same _) (λ stored.
        Keeps-if (StaysStored id) (is_recoverable rec stored)
          (try_again job_id event net rec.received_at) (pure duplicate_event)
          (try_again-StaysStored job_id event net rec.received_at)
          (Keeps-pure (StaysStored id) same duplicate_event))
  recover-StaysStored job_id rec (credited_invoice event) none =
      Keeps-pure (StaysStored id) same duplicate_event
  recover-StaysStored job_id rec (ignored event) net =
      Keeps-pure (StaysStored id) same duplicate_event
  recover-StaysStored job_id rec (transfer_lifecycle event) net =
      Keeps-pure (StaysStored id) same duplicate_event

  credit-StaysStored :
      (job_id : String) (rec : EventRecord) (event : VerifiedEvent) (net : Option ℤ)
      → Keeps (StaysStored id) (credit job_id rec event net)
  unfolding credit
  credit-StaysStored job_id rec (credited_invoice event) (some net) =
      Keeps-bind (StaysStored id) trans (owns_invoice event rec.received_at) _
        (owns_invoice-StaysStored event rec.received_at)
        (λ owned.
          Keeps-if (StaysStored id) owned (queue_transfer job_id event net rec.received_at)
            (mark_invoice_unknown event.event_id)
            (queue_transfer-StaysStored job_id event net rec.received_at)
            (mark_invoice_unknown-StaysStored event.event_id))
  credit-StaysStored job_id rec (credited_invoice event) none = Keeps-pure (StaysStored id) same _
  credit-StaysStored job_id rec (ignored event) net = Keeps-pure (StaysStored id) same _
  credit-StaysStored job_id rec (transfer_lifecycle event) net = Keeps-pure (StaysStored id) same _

  update_transfer-StaysStored :
      (rec : EventRecord) (event : TransferLifecycleEvent) (outcome : EventWriteResult)
      → Keeps (StaysStored id) (update_transfer rec event outcome)
  unfolding update_transfer
  update_transfer-StaysStored rec event outcome db a db' e h = ground (arith, e, h)

-- An insertion that does not raise leaves the id stored: it was new, or it stood there.
insert_event-stored :
    (rec : EventRecord) (outcome : EventWriteResult) (db mid : Database) (b : Bool)
    → webhook_events_constraints db.webhook_events ≡ true
    → insert_event rec outcome db ≡ ok (b, mid)
    → is_stored (event_id_of rec.event) mid ≡ true
unfolding insert_event webhook_events_constraints event_row
insert_event-stored rec outcome db mid b consistent e = ground (
  arith,
  e,
  consistent,
  eq_refl (event_id_of rec.event),
  is_unique-append (λ r. some r.id) db.webhook_events (event_row rec outcome),
  exists_where-last (λ r. r.id == event_id_of rec.event) db.webhook_events (event_row rec outcome)
      (eq_refl (event_id_of rec.event)),
)

module _ (job_id : String) (rec : EventRecord) (db db' : Database) (result : EventWriteResult)
    (consistent : webhook_events_constraints db.webhook_events ≡ true) where
  inserted-stored :
      (outcome : EventWriteResult) (f : Bool → Tx EventWriteResult)
      → ((b : Bool) → Keeps (StaysStored (event_id_of rec.event)) (f b))
      → (insert_event rec outcome >>= f) db ≡ ok (result, db')
      → is_stored (event_id_of rec.event) db' ≡ true
  inserted-stored outcome f later e =
      let (b, mid, first, rest) = bind_inv (insert_event rec outcome) f db e in
      later b mid result db' rest (insert_event-stored rec outcome db mid b consistent first)

  record_other-stored :
      record_other job_id rec db ≡ ok (result, db') → is_stored (event_id_of rec.event) db' ≡ true
  unfolding record_other recover_duplicate
  record_other-stored e =
      inserted-stored (initial_outcome rec.event rec.net_amount) _
        (λ b.
          Keeps-if (StaysStored (event_id_of rec.event)) b
            (credit job_id rec rec.event rec.net_amount)
            (recover job_id rec rec.event rec.net_amount)
            (credit-StaysStored (event_id_of rec.event) job_id rec rec.event rec.net_amount)
            (recover-StaysStored (event_id_of rec.event) job_id rec rec.event rec.net_amount))
        e

  record_kind-stored :
      (event : VerifiedEvent)
      → record_kind job_id rec event db ≡ ok (result, db')
      → is_stored (event_id_of rec.event) db' ≡ true
  unfolding record_kind record_transfer_event
  record_kind-stored (transfer_lifecycle event) e =
      let job = first_where (λ r. r.external_id == event.external_id) db.transfer_jobs in
      let outcome = transfer_outcome job event.updated_at in
      inserted-stored outcome _
        (λ b.
          Keeps-if (StaysStored (event_id_of rec.event)) b (update_transfer rec event outcome)
            (pure duplicate_event)
            (update_transfer-StaysStored (event_id_of rec.event) rec event outcome)
            (Keeps-pure (StaysStored (event_id_of rec.event)) (same (event_id_of rec.event))
              duplicate_event))
        e
  record_kind-stored (credited_invoice event) e = record_other-stored e
  record_kind-stored (ignored event) e = record_other-stored e

  pub record_event-stored :
      record_event job_id rec db ≡ ok (result, db') → is_stored (event_id_of rec.event) db' ≡ true
  unfolding record_event
  record_event-stored e = record_kind-stored rec.event e

  pub record_ignored_workspace-stored :
      record_ignored_workspace rec db ≡ ok (result, db')
      → is_stored (event_id_of rec.event) db' ≡ true
  unfolding record_ignored_workspace
  record_ignored_workspace-stored e =
      inserted-stored EventWriteResult.ignored_workspace _
        (λ b.
          Keeps-if (StaysStored (event_id_of rec.event)) b (pure EventWriteResult.ignored_workspace)
            (pure duplicate_event)
            (Keeps-pure (StaysStored (event_id_of rec.event)) (same (event_id_of rec.event)) _)
            (Keeps-pure (StaysStored (event_id_of rec.event)) (same (event_id_of rec.event)) _))
        e
