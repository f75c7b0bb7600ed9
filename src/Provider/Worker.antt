-- ===== src/Provider/Worker.antt =====
-- bootstrap.py: the worker with the client of the Stark Bank SDK as its provider.
use starkbank_backend_challe.Base.{
  ℕ, ◌≡◌, refl, sym, ap, ◌∙◌, subst, inl, inr, true, none, some, Option, Option-cases, List, [],
  ◌∷◌, ◌⊎◌, arith, String, ◌==◌, Bool-cases,
}
use starkbank_backend_challe.Config.{Settings, build_worker, worker_env}
use starkbank_backend_challe.Domain.Errors.{Result, ok, err, provider}
use starkbank_backend_challe.Domain.Models.{TransferJob, ProviderTransfer}
use starkbank_backend_challe.Domain.Status.{TransferStatus}
use starkbank_backend_challe.Provider.Failures.{
  raises_caught, ensure_transfer-is_caught, require_live_on,
}
use starkbank_backend_challe.Provider.Sdk.{
  Items, end, broken, item, Answer, answered, failed, is_outage, is_input_errors, SdkTransfer,
  StarkBankClient, raise_provider, provider_error_of,
}
use starkbank_backend_challe.Provider.Transfers.{
  provider_transfer, transfer_request, find_in, find_transfer, refused_transfer, created_transfer,
  create_transfer, ensure_after, ensure_transfer,
}
use starkbank_backend_challe.Schema.{Database, transfer_jobs_constraints}
use starkbank_backend_challe.Service.{Call}
use starkbank_backend_challe.TransferWorker.{
  WorkerEnv, succeeded, permanent_failure, process_claimed, is_exhausted,
}
use starkbank_backend_challe.TransferWorker.Commands.{command_of}
use starkbank_backend_challe.TransferWorker.Reports.{IsHeld, stored_status}
use starkbank_backend_challe.TransferWorker.Returns.{
  IsHandled, IsFoundOrTransient, HasRoom, exhausted_ends,
}

ok-injective : {A : Type 0} {a b : A} → ok a ≡ ok b → a ≡ b
ok-injective {a = a} h = ap (λ r. elim r [ ok x ↦ x | err _ ↦ a ]) h

some-injective : {A : Type 0} {a b : A} → some a ≡ some b → a ≡ b
some-injective {a = a} h = ap (λ o. elim o [ some x ↦ x | none ↦ a ]) h

IsHandled-caught : {A : Type 0} (r : Result A) → raises_caught r ≡ true → IsHandled r
IsHandled-caught (ok a) h = tt
IsHandled-caught (err (provider e)) h = h
IsHandled-caught (err _) h = absurd (ground (arith, h))

module _ {W Bytes Object : Type 0} (client : StarkBankClient W Bytes Object) (job : TransferJob)
    (db : Database) where
  -- Every object of a query is a transfer, and not that of another job; and the query breaks off
  -- only with InternalServerError or UnknownError.
  abbrev pub IsSound : Items Object → Type 0
  IsSound end = Unit
  IsSound (broken error) = is_outage error ≡ true
  IsSound (item object rest) =
      ((transfer : SdkTransfer) × (client.sdk.sdk_transfer object ≡ some transfer)
        × HasRoom job db (provider_transfer transfer))
      × IsSound rest

  -- An object that the SDK returns for a creation is not the transfer of another job.
  abbrev pub IsOwnCreation : Answer (List Object) → Type 0
  IsOwnCreation (answered (object ∷ _)) =
      (transfer : SdkTransfer)
      → client.sdk.sdk_transfer object ≡ some transfer
      → HasRoom job db (provider_transfer transfer)
  IsOwnCreation _ = Unit

  find_in_sound :
      (id : String) (items : Items Object)
      → IsSound items
      → IsFoundOrTransient (find_in client id items)
  unfolding find_in raise_provider provider_error_of
  find_in_sound id end h = tt
  find_in_sound id (broken error) h = ground (arith, h)
  find_in_sound id (item object rest) h =
      let (transfer, e, room) = h.0 in
      let later = find_in_sound id rest h.1 in ground (arith, e, later)

  find_in-HasRoom :
      (id : String) (items : Items Object) (transfer : ProviderTransfer)
      → IsSound items
      → find_in client id items ≡ ok (some transfer)
      → HasRoom job db transfer
  unfolding find_in raise_provider
  find_in-HasRoom id end transfer h k = absurd (ground (arith, k))
  find_in-HasRoom id (broken error) transfer h k = absurd (ground (arith, k))
  find_in-HasRoom id (item object rest) transfer h k =
      let (found, e, room) = h.0 in
      elim (Bool-cases (found.external_id == id)) [
        | inl hit ↦
            subst (HasRoom job db) (some-injective (ok-injective (rw (find_in, e, hit) at k))) room
        | inr miss ↦ find_in-HasRoom id rest transfer h.1 (rw (find_in, e, miss) at k)
      ]

  module _
      (sound : (w : W) → IsSound (client.sdk.transfer_query 10 ((command_of job).tag ∷ []) w).0)
      (own : (w : W)
        → IsOwnCreation
            (client.sdk.transfer_create (transfer_request (command_of job) ∷ []) w).0) where
    find_transfer-HasRoom :
        (w : W) (transfer : ProviderTransfer)
        → (find_transfer client (command_of job) w).0 ≡ ok (some transfer)
        → HasRoom job db transfer
    unfolding find_transfer
    find_transfer-HasRoom w transfer h =
        find_in-HasRoom (command_of job).external_id _ transfer (sound w) h

    refused_transfer-HasRoom :
        (found : Result (Option ProviderTransfer)) (transfer : ProviderTransfer)
        → ((t : ProviderTransfer) → found ≡ ok (some t) → HasRoom job db t)
        → refused_transfer client (command_of job) found ≡ ok transfer
        → HasRoom job db transfer
    unfolding refused_transfer
    refused_transfer-HasRoom (ok (some found)) transfer room h =
        subst (HasRoom job db) (ok-injective h) (room found refl)
    refused_transfer-HasRoom (ok none) transfer room h = absurd (ground (arith, h))
    refused_transfer-HasRoom (err error) transfer room h = absurd (ground (arith, h))

    created_transfer-HasRoom :
        (answer : Answer (List Object)) (w : W) (transfer : ProviderTransfer)
        → IsOwnCreation answer
        → (created_transfer client (command_of job) answer w).0 ≡ ok transfer
        → HasRoom job db transfer
    unfolding created_transfer raise_provider
    created_transfer-HasRoom (answered []) w transfer room h = absurd (ground (arith, h))
    created_transfer-HasRoom (answered (object ∷ rest)) w transfer room h =
        elim (Option-cases (client.sdk.sdk_transfer object)) [
          | inl e ↦ absurd (ground (arith, h, e))
          | inr (made, e) ↦
              subst (HasRoom job db) (ok-injective (rw (created_transfer, e) at h)) (room made e)
        ]
    created_transfer-HasRoom (failed error) w transfer room h =
        elim (Bool-cases (is_input_errors error)) [
          | inl e ↦
              refused_transfer-HasRoom (find_transfer client (command_of job) w).0 transfer
                (find_transfer-HasRoom w) (rw (created_transfer, e) at h)
          | inr e ↦ absurd (ground (arith, h, e))
        ]

    ensure_after-HasRoom :
        (found : Result (Option ProviderTransfer)) (w : W) (transfer : ProviderTransfer)
        → ((t : ProviderTransfer) → found ≡ ok (some t) → HasRoom job db t)
        → (ensure_after client (command_of job) found w).0 ≡ ok transfer
        → HasRoom job db transfer
    unfolding ensure_after create_transfer
    ensure_after-HasRoom (err error) w transfer room h = absurd (ground (arith, h))
    ensure_after-HasRoom (ok (some existing)) w transfer room h =
        subst (HasRoom job db) (ok-injective h) (room existing refl)
    ensure_after-HasRoom (ok none) w transfer room h =
        created_transfer-HasRoom _ _ transfer (own w) h

    ensure_transfer-HasRoom :
        (w : W) (transfer : ProviderTransfer)
        → client.live_operations_enabled ≡ true
        → (ensure_transfer client (command_of job) w).0 ≡ ok transfer
        → HasRoom job db transfer
    unfolding ensure_transfer
    ensure_transfer-HasRoom w transfer live h =
        ensure_after-HasRoom (find_transfer client (command_of job) w).0
          (find_transfer client (command_of job) w).1 transfer (find_transfer-HasRoom w)
          (sym (ap (λ r. r.0) (require_live_on client "ensure_transfer" ensuring w live)) ∙ h)
      where
        ensuring : Call W ProviderTransfer
        ensuring w =
            ensure_after client (command_of job) (find_transfer client (command_of job) w).0
              (find_transfer client (command_of job) w).1

  -- A worker of `build_services` with live operations enabled, beside which nobody else writes, ends
  -- a claimed job that has used up its attempts in one call, whatever the SDK answers to the
  -- creation: it returns a success and the table has the job as SUCCEEDED, or it returns a permanent
  -- failure and the table has it as PERMANENT_FAILURE. The job is held under its lease, the table
  -- satisfies its constraints, and the SDK's queries for the job's tag yield only objects that are
  -- transfers, and break off only with InternalServerError or UnknownError; neither they nor the
  -- creation yield the transfer of another job.
  pub assembled_ends :
      (settings : Settings) (env : WorkerEnv W) (now : ℕ) (w : W)
      → client.live_operations_enabled ≡ true
      → ((w : W) (db : Database) → env.meanwhile w db ≡ db)
      → ((w : W) → IsSound (client.sdk.transfer_query 10 ((command_of job).tag ∷ []) w).0)
      → ((w : W)
          → IsOwnCreation (client.sdk.transfer_create (transfer_request (command_of job) ∷ []) w).0)
      → IsHeld job db
      → transfer_jobs_constraints db.transfer_jobs ≡ true
      → is_exhausted (build_worker settings) job ≡ true
      → (((process_claimed (build_worker settings) (worker_env client env) job now db w).0
            ≡ ok succeeded)
          × (stored_status job.id
                (process_claimed (build_worker settings) (worker_env client env) job now db w).1
              ≡ some TransferStatus.succeeded))
        ⊎ (((process_claimed (build_worker settings) (worker_env client env) job now db w).0
              ≡ ok permanent_failure)
            × (stored_status job.id
                  (process_claimed (build_worker settings) (worker_env client env) job now db w).1
                ≡ some TransferStatus.permanent_failure))
  unfolding worker_env find_transfer
  assembled_ends settings env now w live quiet sound own held consistent out =
      exhausted_ends (build_worker settings) (worker_env client env) job db
        (record {
          quiet = quiet;
          ensured = λ w.
              IsHandled-caught (ensure_transfer client (command_of job) w).0
                (ensure_transfer-is_caught client (command_of job) w live);
          found = λ w. find_in_sound (command_of job).external_id _ (sound w);
          ensured_room = λ w transfer. ensure_transfer-HasRoom sound own w transfer live;
          found_room = find_transfer-HasRoom sound own;
        })
        held consistent now w out
