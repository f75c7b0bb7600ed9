-- ===== src/Provider/Verified.antt =====
-- infrastructure/starkbank_client.py: what a verified event has been checked for.
use starkbank_backend_challe.Base.{
  Bool, true, false, not, ◌&&◌, ◌≡◌, refl, ap, sym, subst, inl, inr, Bool-cases, Option-cases,
  Option, none, some, String, ◌==◌, arith, eq_iff,
}
use starkbank_backend_challe.Domain.Errors.{ok, err}
use starkbank_backend_challe.Domain.Events.{
  VerifiedEvent, credited_invoice, ignored, transfer_lifecycle, workspace_id_of, subscription_of,
  log_type_of, event_id_of,
}
use starkbank_backend_challe.Provider.Sdk.{Answer, answered, failed, SdkEvent, StarkBankClient}
use starkbank_backend_challe.Provider.Events.{
  verify_failure, is_foreign, ignored_event, transfer_event, credited_event, own_event, read_event,
  parsed_event, verify_event,
}

-- The class of an event that its subscription and its log's type call for.
abbrev pub is_as_declared : VerifiedEvent → Bool
is_as_declared (credited_invoice e) = e.subscription == "invoice" && e.log_type == "credited"
is_as_declared (transfer_lifecycle e) = e.subscription == "transfer"
is_as_declared (ignored e) = not (e.subscription == "invoice" && e.log_type == "credited")

pub ok-injective : {A : Type 0} {a b : A} → ok a ≡ ok b → a ≡ b
ok-injective {a = a} h = ap (λ r. elim r [ ok x ↦ x | err _ ↦ a ]) h

other_than_invoice :
    (subscription log_type : String)
    → (subscription == "transfer") ≡ true
    → not (subscription == "invoice" && log_type == "credited") ≡ true
other_than_invoice subscription log_type h = ground (
  arith,
  h,
  eq_iff subscription "transfer",
  eq_iff subscription "invoice",
  eq_iff "transfer" "invoice",
)

module _ {W Bytes Object : Type 0} (client : StarkBankClient W Bytes Object) where
  -- An event that the SDK has parsed says this of itself.
  record Says (event : SdkEvent Object) (log_type : String) (verified : VerifiedEvent)
      : Type 0 where
    same_id : event_id_of verified ≡ event.id
    same_workspace : workspace_id_of verified ≡ event.workspace_id
    same_subscription : subscription_of verified ≡ event.subscription
    same_log_type : log_type_of verified ≡ log_type
    declared : is_as_declared verified ≡ true

  lifecycle-Says :
      (event : SdkEvent Object) (log_type : String) (log : Option Object) (verified : VerifiedEvent)
      → (event.subscription == "transfer") ≡ true
      → transfer_event client event log_type log ≡ ok verified
      → Says event log_type verified
  unfolding transfer_event ignored_event verify_failure
  lifecycle-Says event log_type none verified is_transfer h =
      subst (Says event log_type) (ok-injective h) (record {
        same_id = refl;
        same_workspace = refl;
        same_subscription = refl;
        same_log_type = refl;
        declared = other_than_invoice event.subscription log_type is_transfer;
      })
  lifecycle-Says event log_type (some object) verified is_transfer h =
      elim (Option-cases (client.sdk.sdk_lifecycle object)) [
        | inl e ↦ ground (arith, h, e)
        | inr (transfer, e) ↦
            subst (Says event log_type) (ok-injective (rw (transfer_event, e) at h)) (record {
              same_id = refl;
              same_workspace = refl;
              same_subscription = sym ((eq_iff event.subscription "transfer").0 is_transfer);
              same_log_type = refl;
              declared = refl;
            })
      ]

  credited-Says :
      (event : SdkEvent Object) (log_type : String) (log : Option Object) (verified : VerifiedEvent)
      → (event.subscription == "invoice") ≡ true
      → (log_type == "credited") ≡ true
      → credited_event client event log ≡ ok verified
      → Says event log_type verified
  unfolding credited_event verify_failure
  credited-Says event log_type none verified is_invoice is_credited h = ground (arith, h)
  credited-Says event log_type (some object) verified is_invoice is_credited h =
      elim (Option-cases (client.sdk.sdk_credited_invoice object)) [
        | inl e ↦ ground (arith, h, e)
        | inr (invoice, e) ↦
            subst (Says event log_type) (ok-injective (rw (credited_event, e) at h)) (record {
              same_id = refl;
              same_workspace = refl;
              same_subscription = sym ((eq_iff event.subscription "invoice").0 is_invoice);
              same_log_type = sym ((eq_iff log_type "credited").0 is_credited);
              declared = refl;
            })
      ]

  own_event-Says :
      (event : SdkEvent Object) (log_type : String) (verified : VerifiedEvent)
      → own_event client event log_type ≡ ok verified
      → Says event log_type verified
  unfolding own_event ignored_event
  own_event-Says event log_type verified h = elim (Bool-cases (event.subscription == "transfer")) [
    | inl is_transfer ↦
        lifecycle-Says event log_type _ verified is_transfer (rw (own_event, is_transfer) at h)
    | inr other ↦ elim (Bool-cases (event.subscription == "invoice" && log_type == "credited")) [
      | inl both ↦
          credited-Says event log_type (client.sdk.sdk_credited_log event.log) verified
            (ground (arith, both)) (ground (arith, both)) (ground (arith, h, other, both))
      | inr neither ↦
          let same : ignored_event client event log_type ≡ verified =
            ground (arith, h, other, neither) in
          subst (Says event log_type) same (record {
            same_id = refl;
            same_workspace = refl;
            same_subscription = refl;
            same_log_type = refl;
            declared = ap not neither;
          })
    ]
  ]

  -- What must have happened before `verify_event` returns an event.
  pub record IsVerified (content : Bytes) (signature : String) (w : W) (verified : VerifiedEvent)
      : Type 0 where
    text : String
    object : Object
    event : SdkEvent Object
    log_type : String
    decoded : client.sdk.decode content ≡ some text
    parsed : (client.sdk.event_parse text signature w).0 ≡ answered object
    validated : client.sdk.sdk_event object ≡ some event
    logged : client.sdk.sdk_log event.log ≡ some log_type
    of_workspace : is_foreign client event ≡ false
    says : Says event log_type verified

  read_event-own :
      (event : SdkEvent Object) (log : Option String) (verified : VerifiedEvent)
      → read_event client event log ≡ ok verified
      → (log_type : String) × (log ≡ some log_type)
        × (is_foreign client event ≡ false)
        × Says event log_type verified
  unfolding read_event verify_failure
  read_event-own event none verified h = ground (arith, h)
  read_event-own event (some log_type) verified h = elim (Bool-cases (is_foreign client event)) [
    | inl foreign ↦ ground (arith, h, foreign)
    | inr own ↦
        (log_type, refl, own, own_event-Says event log_type verified (rw (read_event, own) at h))
  ]

  -- An event that `verify_event` returns comes from content that is UTF-8 and that the SDK parsed
  -- under the given signature; it is of the expected workspace where one is expected; it has the
  -- id, the workspace, the subscription and the log type of the parsed event; and it is a credit
  -- only for the subscription `invoice` with the log type `credited`, a transfer update only for the
  -- subscription `transfer`, and ignored only where it is no credit.
  pub verify_event-IsVerified :
      (content : Bytes) (signature : String) (w : W) (verified : VerifiedEvent)
      → (verify_event client content signature w).0 ≡ ok verified
      → IsVerified content signature w verified
  unfolding verify_event parsed_event verify_failure
  verify_event-IsVerified content signature w verified h =
      elim (Option-cases (client.sdk.decode content)) [
        | inl e ↦ ground (arith, h, e)
        | inr (text, decoded) ↦
            answer text decoded (client.sdk.event_parse text signature w).0 refl
              (rw (verify_event, decoded) at h)
      ]
    where
      answer :
          (text : String)
          → client.sdk.decode content ≡ some text
          → (reply : Answer Object) → (client.sdk.event_parse text signature w).0 ≡ reply
          → parsed_event client reply ≡ ok verified
          → IsVerified content signature w verified
      answer text decoded (failed error) parsed k = ground (arith, k)
      answer text decoded (answered object) parsed k =
          elim (Option-cases (client.sdk.sdk_event object)) [
            | inl e ↦ ground (arith, k, e)
            | inr (event, validated) ↦
                let (log_type, logged, own, says) =
                  read_event-own event (client.sdk.sdk_log event.log) verified
                    (rw (parsed_event, validated) at k) in
                record {
                  text = text;
                  object = object;
                  event = event;
                  log_type = log_type;
                  decoded = decoded;
                  parsed = parsed;
                  validated = validated;
                  logged = logged;
                  of_workspace = own;
                  says = says;
                }
          ]
