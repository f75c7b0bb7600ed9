-- ===== src/Webhooks/Funding.antt =====
-- The money of the queued transfers.
use starkbank_backend_challe.Base.{
  ℕ, ◌≡◌, refl, sym, inl, inr, some, String, arith, All, All-append, All-update_where,
}
use starkbank_backend_challe.Base.Int.{ℤ, pos, ◌+ℤ◌, ◌≤ℤ◌, ◌<ℤ◌}
use starkbank_backend_challe.Domain.Errors.{
  Error, Result, ok, err, Result-cases, provider, unexpected_workspace,
}
use starkbank_backend_challe.Domain.Events.{
  CreditedInvoiceEvent, VerifiedEvent, EventRecord, credited_invoice,
}
use starkbank_backend_challe.Domain.Money.{calculate_net_amount, calculate_net_amount_iff}
use starkbank_backend_challe.Domain.Transfer.{build_transfer_command}
use starkbank_backend_challe.Domain.Status.{EventWriteResult}
use starkbank_backend_challe.Schema.{Database, TransferJobRow}
use starkbank_backend_challe.Transaction.{commit}
use starkbank_backend_challe.EventStore.{
  insert_event, new_job, provider_said, record_event, record_ignored_workspace,
}
use starkbank_backend_challe.EventStore.Jobs.{record_event-JobsAfter}
use starkbank_backend_challe.Webhooks.{
  WebhookEnv, net_or_none, net_amount_of, foreign_record, record_verified, reject_workspace,
  verified, receive,
}

-- The job sends what is left of a positive amount after its fee, under the invoice's own ids.
pub record IsFunded (job : TransferJobRow) : Type 0 where
  pub positive : pos 0 <ℤ job.net_amount
  pub fee : pos 0 ≤ℤ job.fee
  pub sum : job.net_amount +ℤ job.fee ≡ job.amount
  pub external_id :
      job.external_id ≡ (build_transfer_command job.invoice_id job.net_amount).external_id
  pub tag : job.tag ≡ (build_transfer_command job.invoice_id job.net_amount).tag

net_amount-exact :
    (event : CreditedInvoiceEvent) (net : ℤ)
    → net_amount_of (credited_invoice event) ≡ some net
    → calculate_net_amount event.amount event.fee ≡ ok net
unfolding net_amount_of net_or_none
net_amount-exact event net e = ground arith

new_job-IsFunded :
    (job_id : String) (event : CreditedInvoiceEvent) (net : ℤ) (at : ℕ)
    → net_amount_of (credited_invoice event) ≡ some net
    → IsFunded (new_job job_id event net at)
unfolding new_job
new_job-IsFunded job_id event net at e =
    let (_, fee, positive, sum) =
      (calculate_net_amount_iff event.amount event.fee net).0 (net_amount-exact event net e) in
    record { positive = positive; fee = fee; sum = sum; external_id = refl; tag = refl }

record_event-IsFunded :
    (job_id : String) (rec : EventRecord) (db : Database) (outcome : EventWriteResult)
    (db' : Database)
    → rec.net_amount ≡ net_amount_of rec.event
    → record_event job_id rec db ≡ ok (outcome, db')
    → All IsFunded db.transfer_jobs
    → All IsFunded db'.transfer_jobs
unfolding provider_said
record_event-IsFunded job_id rec db outcome db' net e h =
    elim (record_event-JobsAfter job_id rec db outcome db' e) [
      | inl q ↦ rw q.jobs (
          All-append IsFunded db.transfer_jobs _ h (
            new_job-IsFunded job_id q.event q.net_amount rec.received_at
                (rw (sym q.event_lem, sym net, q.net_amount_lem) refl),
            tt,
          ))
      | inr (inl u) ↦ rw u.jobs (
          All-update_where IsFunded _ (provider_said rec u.event)
            (λ x _ k. record {
              positive = k.positive;
              fee = k.fee;
              sum = k.sum;
              external_id = k.external_id;
              tag = k.tag;
            })
            db.transfer_jobs h)
      | inr (inr same) ↦ rw same.jobs h
    ]

commit-IsFunded :
    (job_id : String) (rec : EventRecord) (db : Database)
    → rec.net_amount ≡ net_amount_of rec.event
    → All IsFunded db.transfer_jobs
    → All IsFunded (commit (record_event job_id rec) db).1.transfer_jobs
commit-IsFunded job_id rec db net h = elim (Result-cases (record_event job_id rec db)) [
  | inl ((outcome, db'), e) ↦
      rw (commit, e) (record_event-IsFunded job_id rec db outcome db' net e h)
  | inr (error, e) ↦ rw (commit, e) h
]

ignored_workspace-SameJobs :
    (rec : EventRecord) (db : Database)
    → (commit (record_ignored_workspace rec) db).1.transfer_jobs ≡ db.transfer_jobs
unfolding record_ignored_workspace insert_event
ignored_workspace-SameJobs rec db = ground arith

module _ {W Bytes : Type 0} (env : WebhookEnv W Bytes) (content : Bytes) where
  record_verified-IsFunded :
      (event : VerifiedEvent) (db : Database) (w : W)
      → All IsFunded db.transfer_jobs
      → All IsFunded (record_verified env content event db w).1.transfer_jobs
  unfolding record_verified
  record_verified-IsFunded event db w h = commit-IsFunded _ _ db refl h

  reject_workspace-SameJobs :
      (error : Error) (db : Database) (w : W)
      → (reject_workspace env content error db w).1.transfer_jobs ≡ db.transfer_jobs
  unfolding reject_workspace
  reject_workspace-SameJobs
        (provider (unexpected_workspace operation workspace_id event_id subscription log_type)) db
        w =
      ground (
        arith,
        ignored_workspace-SameJobs
            (foreign_record env content (env.clock.now w).0 workspace_id event_id subscription
              log_type)
            db,
      )
  reject_workspace-SameJobs _ db w = refl

  verified-IsFunded :
      (result : Result VerifiedEvent) (db : Database) (w : W)
      → All IsFunded db.transfer_jobs
      → All IsFunded (verified env content result db w).1.transfer_jobs
  unfolding verified
  verified-IsFunded (ok event) db w h = record_verified-IsFunded event db w h
  verified-IsFunded (err error) db w h = rw (reject_workspace-SameJobs error db w) h

  -- If every transfer job in the database, once the verifier has answered, sends a positive net
  -- amount, which makes up the amount with a fee that is not negative, under the external id and
  -- the tag of its invoice, then so does every job after `receive`, whatever is delivered and
  -- however it ends.
  pub receive-IsFunded :
      (signature : String) (db : Database) (w : W)
      → All IsFunded (env.meanwhile (env.verify_event content signature w).1 db).transfer_jobs
      → All IsFunded (receive env content signature db w).1.transfer_jobs
  unfolding receive
  receive-IsFunded signature db w h = verified-IsFunded _ _ _ h
