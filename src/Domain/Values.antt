-- ===== src/Domain/Values.antt =====
-- domain/status.py and domain/events.py: the text of each member of an enumeration.
use starkbank_backend_challe.Base.{String}
use starkbank_backend_challe.Domain.Status.{
  TrialStatus, BatchStatus, DraftStatus, TransferStatus, EventWriteResult,
}

abbrev pub trial_status_value : TrialStatus → String
trial_status_value TrialStatus.active = "active"
trial_status_value TrialStatus.completed = "completed"
trial_status_value TrialStatus.stopped = "stopped"
trial_status_value TrialStatus.degraded = "degraded"

abbrev pub batch_status_value : BatchStatus → String
batch_status_value BatchStatus.scheduled = "scheduled"
batch_status_value BatchStatus.issuing = "issuing"
batch_status_value BatchStatus.reconciling = "reconciling"
batch_status_value BatchStatus.completed = "completed"
batch_status_value BatchStatus.degraded = "degraded"

abbrev pub draft_status_value : DraftStatus → String
draft_status_value DraftStatus.pending = "pending"
draft_status_value DraftStatus.created = "created"
draft_status_value DraftStatus.unknown = "unknown"
draft_status_value DraftStatus.failed = "failed"

abbrev pub transfer_status_value : TransferStatus → String
transfer_status_value TransferStatus.pending = "pending"
transfer_status_value TransferStatus.processing = "processing"
transfer_status_value TransferStatus.unknown = "unknown"
transfer_status_value TransferStatus.succeeded = "succeeded"
transfer_status_value TransferStatus.permanent_failure = "permanent_failure"

abbrev pub outcome_value : EventWriteResult → String
outcome_value EventWriteResult.queued = "queued"
outcome_value EventWriteResult.ignored = "ignored"
outcome_value EventWriteResult.ignored_workspace = "ignored_workspace"
outcome_value EventWriteResult.rejected = "rejected"
outcome_value EventWriteResult.duplicate_event = "duplicate_event"
outcome_value EventWriteResult.duplicate_invoice = "duplicate_invoice"
outcome_value EventWriteResult.invoice_unknown = "invoice_unknown"
outcome_value EventWriteResult.transfer_updated = "transfer_updated"
outcome_value EventWriteResult.transfer_unmatched = "transfer_unmatched"
outcome_value EventWriteResult.transfer_stale = "transfer_stale"
