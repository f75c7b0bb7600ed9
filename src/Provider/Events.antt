-- ===== src/Provider/Events.antt =====
-- infrastructure/starkbank_client.py: webhook events.
use starkbank_backend_challe.Base.{
  Bool, true, false, not, ◌||◌, Option, none, some, List, [], ◌∷◌, String, ◌==◌, if◌then◌else◌,
}
use starkbank_backend_challe.Domain.Errors.{
  Result, ok, err, provider, transient, permanent, invalid_webhook, unexpected_workspace, uncaught,
}
use starkbank_backend_challe.Domain.Events.{
  VerifiedEvent, credited_invoice, ignored, transfer_lifecycle,
}
use starkbank_backend_challe.Domain.Time.{Datetime, aware, as_utc}
use starkbank_backend_challe.Service.{Call}
use starkbank_backend_challe.Provider.Sdk.{
  SdkError, input_errors, internal_server, unknown_error, invalid_signature, other_stark_error,
  validation_error, Answer, answered, failed, Items, end, broken, item, SdkEvent, StarkBankClient,
  raise_provider, require_live,
}

-- The handlers of `verify_event`. Another StarkError leaves it as it is.
unfoldable pub verify_failure : {A : Type 0} → SdkError → Result A
verify_failure invalid_signature = err (provider (invalid_webhook "verify_event"))
verify_failure validation_error = err (provider (invalid_webhook "verify_event"))
verify_failure internal_server = err (provider (transient "verify_event"))
verify_failure unknown_error = err (provider (transient "verify_event"))
verify_failure input_errors = err (uncaught "InputErrors")
verify_failure other_stark_error = err (uncaught "StarkError")

module _ {W Bytes Object : Type 0} (client : StarkBankClient W Bytes Object) where
  -- `_assert_expected_workspace`: whether the event is from another workspace.
  unfoldable pub is_foreign : SdkEvent Object → Bool
  is_foreign event = elim client.expected_workspace_id [
    | none ↦ false
    | some expected ↦ not (event.workspace_id == expected)
  ]

  unfoldable pub ignored_event : SdkEvent Object → String → VerifiedEvent
  ignored_event event log_type = ignored (record {
    event_id = event.id;
    subscription = event.subscription;
    log_type = log_type;
    workspace_id = event.workspace_id;
  })

  -- A log without a transfer is ignored, one with a malformed transfer is invalid.
  unfoldable pub transfer_event : SdkEvent Object → String → Option Object → Result VerifiedEvent
  transfer_event event log_type none = ok (ignored_event event log_type)
  transfer_event event log_type (some object) = elim (client.sdk.sdk_lifecycle object) [
    | none ↦ verify_failure validation_error
    | some transfer ↦ ok (
        transfer_lifecycle (record {
          event_id = event.id;
          transfer_id = transfer.id;
          external_id = transfer.external_id;
          status = transfer.status;
          log_type = log_type;
          updated_at = aware (as_utc transfer.updated);
          workspace_id = event.workspace_id;
          subscription = "transfer";
        }))
  ]

  unfoldable pub credited_event : SdkEvent Object → Option Object → Result VerifiedEvent
  credited_event event none = verify_failure validation_error
  credited_event event (some object) = elim (client.sdk.sdk_credited_invoice object) [
    | none ↦ verify_failure validation_error
    | some invoice ↦ ok (
        credited_invoice (record {
          event_id = event.id;
          invoice_id = invoice.id;
          amount = invoice.amount;
          fee = invoice.fee;
          workspace_id = event.workspace_id;
          tags = invoice.tags;
          subscription = "invoice";
          log_type = "credited";
        }))
  ]

  -- What an event of the expected workspace says.
  unfoldable pub own_event : SdkEvent Object → String → Result VerifiedEvent
  own_event event log_type =
      if event.subscription == "transfer"
      then transfer_event event log_type (client.sdk.sdk_transfer_log event.log)
      else if not (event.subscription == "invoice") || not (log_type == "credited")
      then ok (ignored_event event log_type)
      else credited_event event (client.sdk.sdk_credited_log event.log)

  unfoldable pub read_event : SdkEvent Object → Option String → Result VerifiedEvent
  read_event event none = verify_failure validation_error
  read_event event (some log_type) =
      if is_foreign event
      then err (
          provider (
            unexpected_workspace "verify_event" event.workspace_id event.id event.subscription
              log_type))
      else own_event event log_type

  unfoldable pub parsed_event : Answer Object → Result VerifiedEvent
  parsed_event (failed error) = verify_failure error
  parsed_event (answered object) = elim (client.sdk.sdk_event object) [
    | none ↦ verify_failure validation_error
    | some event ↦ read_event event (client.sdk.sdk_log event.log)
  ]

  -- Content that is not UTF-8 is invalid.
  unfoldable pub verify_event : Bytes → String → Call W VerifiedEvent
  verify_event content signature w = elim (client.sdk.decode content) [
    | none ↦ (err (provider (invalid_webhook "verify_event")), w)
    | some text ↦
        let (answer, w') = client.sdk.event_parse text signature w in (parsed_event answer, w')
  ]

  unfoldable pub event_ids : Items Object → Result (List String)
  event_ids end = ok []
  event_ids (broken error) = raise_provider error "list_events" false
  event_ids (item object rest) =
      let later = event_ids rest in
      elim (client.sdk.sdk_event object) [
        | none ↦ raise_provider validation_error "list_events" false
        | some event ↦ elim later [ ok ids ↦ ok (event.id ∷ ids) | err e ↦ err e ]
      ]

  abbrev text_or_none : Option Datetime → Option String
  text_or_none none = none
  text_or_none (some at) = some (client.sdk.utc_text at)

  unfoldable pub list_events : Datetime → Option Datetime → Call W (List String)
  list_events after before w = elim client.sdk.event_query [
    | none ↦ (err (provider (permanent "list_events")), w)
    | some query ↦
        let (items, w') = query (client.sdk.utc_text after) (text_or_none before) w in
        (event_ids items, w')
  ]

  -- `delete_event` and `delete_webhook`
  unfoldable pub deleted : String → Answer (Unit {0}) → Result (Unit {0})
  deleted operation (answered _) = ok tt
  deleted operation (failed error) = raise_provider error operation true

  unfoldable pub delete_by :
      String → Option (String → W → Answer (Unit {0}) × W) → String → Call W (Unit {0})
  delete_by operation none id w = (err (provider (permanent operation)), w)
  delete_by operation (some delete) id w =
      let (answer, w') = delete id w in (deleted operation answer, w')

  unfoldable pub delete_event : String → Call W (Unit {0})
  delete_event event_id =
      require_live client "delete_event" (delete_by "delete_event" client.sdk.event_delete event_id)
