-- ===== src/Domain/Status.antt =====
-- domain/status.py and the results of domain/events.py: enumerations and the tests on them.
use starkbank_backend_challe.Base.{Bool, true, false}

pub data TrialStatus : Type 0 where
  active completed stopped degraded : TrialStatus

pub data BatchStatus : Type 0 where
  scheduled issuing reconciling completed degraded : BatchStatus

pub data DraftStatus : Type 0 where
  pending created unknown failed : DraftStatus

pub data TransferStatus : Type 0 where
  pending processing unknown succeeded permanent_failure : TransferStatus

pub data EventWriteResult : Type 0 where
  queued ignored ignored_workspace rejected duplicate_event duplicate_invoice : EventWriteResult
  invoice_unknown transfer_updated transfer_unmatched transfer_stale : EventWriteResult

-- `status.in_((SCHEDULED, ISSUING, RECONCILING))`
abbrev pub is_claimable : BatchStatus → Bool
is_claimable scheduled = true
is_claimable issuing = true
is_claimable reconciling = true
is_claimable completed = false
is_claimable degraded = false

abbrev pub is_completed : BatchStatus → Bool
is_completed completed = true
is_completed _ = false

abbrev pub is_degraded : BatchStatus → Bool
is_degraded degraded = true
is_degraded _ = false

abbrev pub is_pending_draft : DraftStatus → Bool
is_pending_draft pending = true
is_pending_draft _ = false

abbrev pub is_unknown_draft : DraftStatus → Bool
is_unknown_draft unknown = true
is_unknown_draft _ = false

abbrev pub is_created_draft : DraftStatus → Bool
is_created_draft created = true
is_created_draft _ = false

abbrev pub is_failed_draft : DraftStatus → Bool
is_failed_draft failed = true
is_failed_draft _ = false

-- `status.in_((PENDING, UNKNOWN))`
abbrev pub is_waiting : TransferStatus → Bool
is_waiting pending = true
is_waiting processing = false
is_waiting unknown = true
is_waiting succeeded = false
is_waiting permanent_failure = false

abbrev pub is_processing : TransferStatus → Bool
is_processing processing = true
is_processing _ = false

abbrev pub is_succeeded : TransferStatus → Bool
is_succeeded succeeded = true
is_succeeded _ = false

abbrev pub is_invoice_unknown : EventWriteResult → Bool
is_invoice_unknown invoice_unknown = true
is_invoice_unknown _ = false

abbrev pub is_queued : EventWriteResult → Bool
is_queued queued = true
is_queued _ = false

abbrev pub is_transfer_updated : EventWriteResult → Bool
is_transfer_updated transfer_updated = true
is_transfer_updated _ = false
