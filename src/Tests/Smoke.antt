-- ===== src/Tests/Smoke.antt =====
-- Invoices for a try-out, and the webhook endpoint.
use starkbank_backend_challe.Base.{
  ℕ, ◌+◌, ◌≤◌, ◌≡◌, refl, true, some, [], ◌∷◌, ◌==◌, length, none, eqb, if◌then◌else◌,
}
use starkbank_backend_challe.Domain.Errors.{ok}
use starkbank_backend_challe.Domain.Events.{credited_invoice, event_id_of}
use starkbank_backend_challe.Base.Int.{◌-ℤ◌}
use starkbank_backend_challe.Domain.Money.{calculate_net_amount}
use starkbank_backend_challe.Domain.Transfer.{build_transfer_command}
use starkbank_backend_challe.EventStore.{
  event_row, insert_event, new_job, insert_job, enqueue, queue_transfer, is_in, from_keys,
  bind_owner, confirm_draft, is_other, owns_by_tag, owns_found, owns_invoice, initial_outcome,
  credit, record_other, record_kind, record_event,
}
use starkbank_backend_challe.InvoiceStore.{
  register_smoke, bind_provider_invoice, bind_current, or_conflict,
}
use starkbank_backend_challe.Webhooks.{
  receive, verified, record_verified, net_amount_of, net_or_none, new_id,
}
use starkbank_backend_challe.Schema.{
  webhook_events_constraints, transfer_jobs_constraints, owned_invoices_constraints,
}
use starkbank_backend_challe.EventStore.Stored.{is_stored}
use starkbank_backend_challe.Http.{accepted, starkbank_webhook, webhook_reply}
use starkbank_backend_challe.Http.Acknowledged.{acknowledged_stored}
use starkbank_backend_challe.Smoke.{
  SmokeBatchResult, SmokeEnv, build_smoke_invoice, record_smoke, look_up, with_invoice, with_reused,
  settle_smoke, create_smoke, issue_smoke, run_one, run_from, run,
}
use starkbank_backend_challe.Smoke.Counts.{run_counts}
use starkbank_backend_challe.Tests.Data.{store, payment}
use starkbank_backend_challe.Tests.Events.{env}

acknowledged : (starkbank_webhook env (some "signature") "body" store 30).0 ≡ ok (accepted "queued")
unfolding starkbank_webhook webhook_reply receive verified record_verified net_amount_of net_or_none
    calculate_net_amount ◌-ℤ◌ record_event record_kind record_other credit initial_outcome
    insert_event owns_invoice owns_found is_in from_keys owns_by_tag is_other bind_owner
    confirm_draft queue_transfer enqueue insert_job new_job event_row transfer_jobs_constraints
    webhook_events_constraints owned_invoices_constraints build_transfer_command new_id
acknowledged = refl

acknowledged_stored_example :
    is_stored
      (event_id_of (credited_invoice payment))
      (starkbank_webhook env (some "signature") "body" store 30).1
    ≡ true
unfolding webhook_events_constraints
acknowledged_stored_example =
    acknowledged_stored env "body" "signature" store 30 refl (credited_invoice payment) "queued"
      refl acknowledged refl

-- A provider that has the first invoice only.
abbrev smoke_env : SmokeEnv ℕ
smoke_env = record {
  clock = record { now = λ w. (w, w + 1) };
  smoke_uuid = λ namespace reference. reference;
  payer_name = λ id. "Ana";
  payer_tax_id = λ id. "1";
  text_of = λ ordinal. if eqb ordinal 0 then "0" else "1";
  create_invoice = λ draft w. (ok (record { id = "invoice-8"; tag = draft.tag }), w + 1);
  find_invoice = λ tag w. (
    ok (if tag == "trial-smoke:try:0" then some (record { id = "invoice-7"; tag = tag }) else none),
    w + 1,
  );
  meanwhile = λ w db. db;
}

abbrev two_invoices : SmokeBatchResult
two_invoices = record {
  invoices =
      record { id = "invoice-7"; tag = "trial-smoke:try:0" }
      ∷ record { id = "invoice-8"; tag = "trial-smoke:try:1" }
      ∷ [];
  reused = 1;
}

run_counts_example : (length two_invoices.invoices ≡ 2) × (two_invoices.reused ≤ 2)
unfolding run run_from run_one issue_smoke create_smoke settle_smoke with_invoice with_reused
    look_up record_smoke build_smoke_invoice register_smoke bind_provider_invoice bind_current
    or_conflict owned_invoices_constraints
run_counts_example =
    run_counts smoke_env "local" "try" 2 500 store (run smoke_env "local" "try" 2 500 store 0).1 0
      (run smoke_env "local" "try" 2 500 store 0).2 two_invoices refl
