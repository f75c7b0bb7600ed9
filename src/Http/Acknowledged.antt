-- ===== src/Http/Acknowledged.antt =====
-- http/app.py: what stands in the database once a delivery has been acknowledged.
use starkbank_backend_challe.Base.{
  ◌≡◌, refl, ap, sym, ◌∙◌, true, false, some, String, ◌==◌, arith, inl, inr, eq_iff,
}
use starkbank_backend_challe.Domain.Errors.{
  Result, ok, err, provider, unexpected_workspace, Result-cases,
}
use starkbank_backend_challe.Domain.Events.{VerifiedEvent, EventRecord, event_id_of}
use starkbank_backend_challe.Domain.Status.{EventWriteResult}
use starkbank_backend_challe.Schema.{Database, webhook_events_constraints}
use starkbank_backend_challe.Transaction.{Tx, commit}
use starkbank_backend_challe.EventStore.{record_event}
use starkbank_backend_challe.EventStore.Stored.{is_stored, record_event-stored}
use starkbank_backend_challe.Webhooks.{
  WebhookEnv, net_amount_of, record_verified, verified, receive,
}
use starkbank_backend_challe.Http.{accepted, webhook_reply, starkbank_webhook}

reply_db :
    {W : Type 0} (r : Result EventWriteResult) (db : Database) (w : W)
    → (webhook_reply r db w).1 ≡ db
unfolding webhook_reply
reply_db r db w = ground arith

-- A status other than that of a foreign event is that of an outcome.
reply_recorded :
    {W : Type 0} (r : Result EventWriteResult) (db : Database) (w : W) (status : String)
    → (webhook_reply r db w).0 ≡ ok (accepted status)
    → (status == "ignored_workspace") ≡ false
    → (outcome : EventWriteResult) × (r ≡ ok outcome)
unfolding webhook_reply
reply_recorded (ok outcome) db w status h other = (outcome, refl)
reply_recorded (err (provider (unexpected_workspace _ _ _ _ _))) db w status h other =
    absurd (ground (arith, h, other, eq_iff status "ignored_workspace"))
reply_recorded (err _) db w status h other = absurd (ground (arith, h))

-- What a committed transaction returned, it returned before it was committed.
committed :
    {A : Type 0} (m : Tx A) (P : Database → Type 0) (db : Database) (a : A)
    → ((a : A) (db' : Database) → m db ≡ ok (a, db') → P db')
    → (commit m db).0 ≡ ok a
    → P (commit m db).1
committed m P db a stored h = elim (Result-cases (m db)) [
  | inl ((b, db'), e) ↦ rw (commit, e) (stored b db' e)
  | inr (error, e) ↦ ground (arith, h, e)
]

module _ {W Bytes : Type 0} (env : WebhookEnv W Bytes) (content : Bytes) where
  record_verified-stored :
      (event : VerifiedEvent) (outcome : EventWriteResult) (db : Database) (w : W)
      → webhook_events_constraints db.webhook_events ≡ true
      → (record_verified env content event db w).0 ≡ ok outcome
      → is_stored (event_id_of event) (record_verified env content event db w).1 ≡ true
  unfolding record_verified
  record_verified-stored event outcome db w consistent h =
      let job_id = (env.uuid4 (env.clock.now w).1).0 in
      let rec : EventRecord = record {
        event = event;
        payload_hash = env.sha256 content;
        received_at = (env.clock.now w).0;
        net_amount = net_amount_of event;
      } in
      committed (record_event job_id rec) (λ db'. is_stored (event_id_of event) db' ≡ true) db
        outcome (λ result db' e. record_event-stored job_id rec db db' result consistent e) h

  module _ (signature : String) (db : Database) (w : W)
      (consistent : webhook_events_constraints
          (env.meanwhile (env.verify_event content signature w).1 db).webhook_events
        ≡ true) where
    -- A delivery that is verified, and acknowledged with a status other than `ignored_workspace`,
    -- has left its event in the database, whichever outcome it has; the event ids that the database
    -- held when the verifier answered are supposed to be unique.
    pub acknowledged_stored :
        (event : VerifiedEvent) (status : String)
        → (env.verify_event content signature w).0 ≡ ok event
        → (starkbank_webhook env (some signature) content db w).0 ≡ ok (accepted status)
        → (status == "ignored_workspace") ≡ false
        → is_stored (event_id_of event) (starkbank_webhook env (some signature) content db w).1
          ≡ true
    unfolding starkbank_webhook receive verified
    acknowledged_stored event status e h other =
        let reached = env.meanwhile (env.verify_event content signature w).1 db in
        let w₁ = (env.verify_event content signature w).1 in
        let same : receive env content signature db w
            ≡ record_verified env content event reached w₁ =
          rw (receive, verified, e) refl in
        let (outcome, recorded) = reply_recorded _ _ _ status h other in
        ap (is_stored (event_id_of event)) (reply_db _ _ _)
        ∙ ap (λ r. is_stored (event_id_of event) r.1) same
        ∙ record_verified-stored event outcome reached w₁ consistent
            (sym (ap (λ r. r.0) same) ∙ recorded)
