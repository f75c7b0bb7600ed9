-- ===== src/EventStore.antt =====
-- persistence/event_store.py: what a verified webhook event does to the database. Each method is
-- one transaction. `job_id` is what `uuid4()` would give; `pg_notify` changes no state.
pub mod SameJobs
pub mod Queueing
pub mod Jobs
pub mod Timeline
pub mod Handled
pub mod Stored
pub mod Once
pub mod Owners
pub mod Ownership
use starkbank_backend_challe.Base.{
  ℕ, Bool, true, false, not, ◌&&◌, ◌||◌, Option, none, some, List, [], ◌∷◌, ◌++◌, String, ◌==◌, leb,
  take, holds, is_none, if◌then◌else◌, select_where, update_where, first_where, exists_where,
}
use starkbank_backend_challe.Base.Int.{ℤ, pos}
use starkbank_backend_challe.Domain.Time.{Datetime, as_utc}
use starkbank_backend_challe.Domain.Models.{TransferCommand}
use starkbank_backend_challe.Domain.Transfer.{build_transfer_command}
use starkbank_backend_challe.Domain.Events.{
  CreditedInvoiceEvent, TransferLifecycleEvent, VerifiedEvent, EventRecord, credited_invoice,
  ignored, transfer_lifecycle, event_id_of, subscription_of, log_type_of, workspace_id_of,
}
use starkbank_backend_challe.Domain.Status.{
  DraftStatus, TransferStatus, EventWriteResult, queued, rejected, ignored_workspace,
  duplicate_event, duplicate_invoice, invoice_unknown, transfer_updated, transfer_unmatched,
  transfer_stale, is_invoice_unknown, is_queued, is_transfer_updated,
}
use starkbank_backend_challe.Schema.{
  Database, OwnedInvoiceRow, InvoiceDraftRow, WebhookEventRow, TransferJobRow,
}
use starkbank_backend_challe.Transaction.{
  Tx, Statement, pure, gets, savepoint, ◌>>=◌, ◌>>◌, write_webhook_events, write_transfer_jobs,
  write_owned_invoices, write_invoice_drafts, touch_webhook_events,
}

invoice_id_of : VerifiedEvent → Option String
invoice_id_of (credited_invoice e) = some e.invoice_id
invoice_id_of _ = none

transfer_id_of : VerifiedEvent → Option String
transfer_id_of (transfer_lifecycle e) = some e.transfer_id
transfer_id_of _ = none

unfoldable pub event_row : EventRecord → EventWriteResult → WebhookEventRow
unfolding invoice_id_of transfer_id_of
event_row rec outcome = record {
  id = event_id_of rec.event;
  subscription = subscription_of rec.event;
  log_type = log_type_of rec.event;
  invoice_id = invoice_id_of rec.event;
  transfer_id = transfer_id_of rec.event;
  workspace_id = workspace_id_of rec.event;
  payload_hash = rec.payload_hash;
  outcome = outcome;
  received_at = rec.received_at;
}

-- `_insert_event`: whether the event is new.
unfoldable pub insert_event : EventRecord → EventWriteResult → Tx Bool
insert_event rec outcome =
    savepoint (write_webhook_events (λ rows. rows ++ event_row rec outcome ∷ []))

set_outcome : String → EventWriteResult → Statement
set_outcome event_id outcome =
    touch_webhook_events
      (update_where (λ r. r.id == event_id) (λ r. record r { outcome = outcome }))

unfoldable pub mark_duplicate : String → Tx EventWriteResult
unfolding set_outcome
mark_duplicate event_id = do set_outcome event_id duplicate_invoice; pure duplicate_invoice

unfoldable pub mark_invoice_unknown : String → Tx EventWriteResult
unfolding set_outcome
mark_invoice_unknown event_id = do set_outcome event_id invoice_unknown; pure invoice_unknown

unfoldable pub new_job : String → CreditedInvoiceEvent → ℤ → ℕ → TransferJobRow
new_job job_id event net_amount received_at =
    let command = build_transfer_command event.invoice_id net_amount in
    record {
      id = job_id;
      event_id = event.event_id;
      invoice_id = event.invoice_id;
      amount = event.amount;
      fee = event.fee;
      net_amount = net_amount;
      external_id = command.external_id;
      tag = command.tag;
      status = TransferStatus.pending;
      attempts = 0;
      next_attempt_at = received_at;
      lease_until = none;
      provider_transfer_id = none;
      provider_status = none;
      provider_log_type = none;
      provider_status_updated_at = none;
      last_error_code = none;
      created_at = received_at;
      updated_at = received_at;
    }

-- The insertion of the job, in a savepoint.
unfoldable pub insert_job : TransferJobRow → Tx Bool
insert_job job = savepoint (write_transfer_jobs (λ rows. rows ++ job ∷ []))

-- The job is refused where another one has its invoice or its event.
unfoldable pub enqueue : TransferJobRow → String → Tx EventWriteResult
enqueue job event_id = do
  inserted ← insert_job job
  if inserted then pure queued else mark_duplicate event_id

unfoldable pub queue_transfer : String → CreditedInvoiceEvent → ℤ → ℕ → Tx EventWriteResult
queue_transfer job_id event net_amount received_at = do
  present ← gets (λ db. exists_where (λ r. r.invoice_id == event.invoice_id) db.transfer_jobs)
  if present
      then mark_duplicate event.event_id
      else enqueue (new_job job_id event net_amount received_at) event.event_id

-- `tag IN (…)`
unfoldable pub is_in : List String → String → Bool
is_in [] tag = false
is_in (t ∷ tags) tag = t == tag || is_in tags tag

-- `dict.fromkeys(tags)`: each tag once, where it stands first.
unfoldable pub from_keys : List String → List String → List String
from_keys seen [] = []
from_keys seen (t ∷ tags) =
    let new = t ∷ from_keys (t ∷ seen) tags in
    let old = from_keys seen tags in if is_in seen t then old else new

-- Binds the invoice to an owner that has none yet.
unfoldable pub bind_owner : OwnedInvoiceRow → String → ℕ → Tx Bool
bind_owner owner invoice_id received_at = savepoint (
    write_owned_invoices (
      update_where (λ r. r.tag == owner.tag && is_none r.provider_invoice_id)
        (λ r. record r { provider_invoice_id = some invoice_id; updated_at = received_at })))

-- The last statement of `_owns_invoice`.
unfoldable pub confirm_draft : OwnedInvoiceRow → String → ℕ → Tx Bool
confirm_draft owner invoice_id received_at = elim owner.draft_id [
  | none ↦ pure true
  | some draft_id ↦ do
    write_invoice_drafts (
        update_where
          (λ r.
            r.id == draft_id
            && (is_none r.provider_invoice_id || holds r.provider_invoice_id invoice_id))
          (λ r. record r {
            provider_invoice_id = some invoice_id;
            status = DraftStatus.created;
            updated_at = received_at;
          }))
    pure true
]

-- The owner's present invoice stands in the way of another one.
unfoldable pub is_other : Option String → String → Bool
is_other none invoice_id = false
is_other (some current) invoice_id = not (current == invoice_id)

-- The invoice is not bound, and the tags lead to `matches`.
unfoldable pub owns_by_tag : List OwnedInvoiceRow → String → ℕ → Tx Bool
owns_by_tag (owner ∷ []) invoice_id received_at =
    if is_other owner.provider_invoice_id invoice_id then pure false else (do
      bound ← bind_owner owner invoice_id received_at
      if bound then confirm_draft owner invoice_id received_at else pure false)
owns_by_tag _ invoice_id received_at = pure false

-- The invoice is bound: no tag of the event may belong to another owner.
unfoldable pub owns_bound : OwnedInvoiceRow → CreditedInvoiceEvent → ℕ → Tx Bool
unfolding is_in
owns_bound owner event received_at = do
  foreign ← gets (λ db.
      exists_where (λ r. is_in event.tags r.tag && not (r.tag == owner.tag)) db.owned_invoices)
  if foreign then pure false else confirm_draft owner event.invoice_id received_at

-- The owner that the invoice is bound to, when there is one.
unfoldable pub owns_found : CreditedInvoiceEvent → ℕ → Option OwnedInvoiceRow → Tx Bool
unfolding is_in from_keys
owns_found event received_at (some owner) = owns_bound owner event received_at
owns_found event received_at none = do
  matches ←
      gets
        (λ db. take 2 (select_where (λ r. is_in (from_keys [] event.tags) r.tag) db.owned_invoices))
  owns_by_tag matches event.invoice_id received_at

unfoldable pub owns_invoice : CreditedInvoiceEvent → ℕ → Tx Bool
owns_invoice event received_at = do
  owner ←
      gets (λ db. first_where (λ r. holds r.provider_invoice_id event.invoice_id) db.owned_invoices)
  owns_found event received_at owner

-- The stored event lets the delivery be tried again: same payload, and its invoice was unknown.
unfoldable pub is_recoverable : EventRecord → Option WebhookEventRow → Bool
is_recoverable rec none = false
is_recoverable rec (some stored) =
    stored.payload_hash == rec.payload_hash && is_invoice_unknown stored.outcome

unfoldable pub requeue : String → CreditedInvoiceEvent → ℤ → ℕ → Tx EventWriteResult
unfolding set_outcome
requeue job_id event net_amount received_at = do
  outcome ← queue_transfer job_id event net_amount received_at
  if is_queued outcome then (set_outcome event.event_id queued >> pure queued) else pure outcome

unfoldable pub try_again : String → CreditedInvoiceEvent → ℤ → ℕ → Tx EventWriteResult
try_again job_id event net_amount received_at = do
  owned ← owns_invoice event received_at
  if owned then requeue job_id event net_amount received_at else pure duplicate_event

unfoldable pub recover : String → EventRecord → VerifiedEvent → Option ℤ → Tx EventWriteResult
recover job_id rec (credited_invoice event) (some net_amount) = do
  stored ← gets (λ db. first_where (λ r. r.id == event.event_id) db.webhook_events)
  if is_recoverable rec stored
      then try_again job_id event net_amount rec.received_at
      else pure duplicate_event
recover job_id rec _ _ = pure duplicate_event

unfoldable pub recover_duplicate : String → EventRecord → Tx EventWriteResult
recover_duplicate job_id rec = recover job_id rec rec.event rec.net_amount

unfoldable pub initial_outcome : VerifiedEvent → Option ℤ → EventWriteResult
initial_outcome (ignored _) net_amount = EventWriteResult.ignored
initial_outcome _ none = rejected
initial_outcome _ (some _) = queued

unfoldable pub record_ignored_workspace : EventRecord → Tx EventWriteResult
record_ignored_workspace rec = do
  inserted ← insert_event rec ignored_workspace
  if inserted then pure ignored_workspace else pure duplicate_event

-- The stored instant is at or after the event's.
unfoldable pub is_stale : Option Datetime → Datetime → Bool
is_stale none updated_at = false
is_stale (some stored) updated_at = leb (as_utc updated_at) (as_utc stored)

unfoldable pub transfer_outcome : Option TransferJobRow → Datetime → EventWriteResult
transfer_outcome none updated_at = transfer_unmatched
transfer_outcome (some job) updated_at =
    if is_stale job.provider_status_updated_at updated_at then transfer_stale else transfer_updated

-- What the provider says of the transfer.
unfoldable pub provider_said :
    EventRecord → TransferLifecycleEvent → TransferJobRow → TransferJobRow
provider_said rec event r = record r {
  provider_transfer_id = some event.transfer_id;
  provider_status = some event.status;
  provider_log_type = some event.log_type;
  provider_status_updated_at = some event.updated_at;
  updated_at = rec.received_at;
}

-- What follows the insertion of a transfer event that is new.
unfoldable pub update_transfer :
    EventRecord → TransferLifecycleEvent → EventWriteResult → Tx EventWriteResult
update_transfer rec event outcome =
    if is_transfer_updated outcome
    then (write_transfer_jobs
          (update_where (λ r. r.external_id == event.external_id) (provider_said rec event))
        >> pure outcome)
    else pure outcome

unfoldable pub record_transfer_event : EventRecord → TransferLifecycleEvent → Tx EventWriteResult
record_transfer_event rec event = do
  job ← gets (λ db. first_where (λ r. r.external_id == event.external_id) db.transfer_jobs)
  inserted ← insert_event rec (transfer_outcome job event.updated_at)
  if inserted
      then update_transfer rec event (transfer_outcome job event.updated_at)
      else pure duplicate_event

-- What follows the insertion of an event that is new.
unfoldable pub credit : String → EventRecord → VerifiedEvent → Option ℤ → Tx EventWriteResult
credit job_id rec (credited_invoice event) (some net_amount) = do
  owned ← owns_invoice event rec.received_at
  if owned
      then queue_transfer job_id event net_amount rec.received_at
      else mark_invoice_unknown event.event_id
credit job_id rec event net_amount = pure (initial_outcome event net_amount)

unfoldable pub record_other : String → EventRecord → Tx EventWriteResult
record_other job_id rec = do
  inserted ← insert_event rec (initial_outcome rec.event rec.net_amount)
  if inserted then credit job_id rec rec.event rec.net_amount else recover_duplicate job_id rec

unfoldable pub record_kind : String → EventRecord → VerifiedEvent → Tx EventWriteResult
record_kind job_id rec (transfer_lifecycle event) = record_transfer_event rec event
record_kind job_id rec _ = record_other job_id rec

-- `record`, in its transaction.
unfoldable pub record_event : String → EventRecord → Tx EventWriteResult
record_event job_id rec = record_kind job_id rec rec.event
