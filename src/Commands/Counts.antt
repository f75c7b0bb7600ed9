-- ===== src/Commands/Counts.antt =====
-- cli.py: what `sync-transfer-statuses` and `cleanup-events` report.
use mathlib.Core.List.{append_assoc, append-nil, perm_middle}
use mathlib.Core.List.Perm
use starkbank_backend_challe.Base.{
  ℕ, suc, ◌+◌, ◌≡◌, refl, sym, subst, true, Option, none, some, List, [], ◌∷◌, ◌++◌, String, Perm,
  length, arith,
}
use starkbank_backend_challe.Base.Select.{OrderBy}
use starkbank_backend_challe.Domain.Errors.{Result, ok, err, provider}
use starkbank_backend_challe.Domain.Models.{ProviderTransfer}
use starkbank_backend_challe.Domain.Transfer.{build_transfer_command}
use starkbank_backend_challe.Schema.{Database}
use starkbank_backend_challe.Service.{
  Clock, transact, attempt, read_clock, call, Yields, Yields-pure, Yields-bind, Yields-then,
}
use starkbank_backend_challe.Provider.Sdk.{
  StarkBankClient, raise_provider, provider_error_of, require_live,
}
use starkbank_backend_challe.Provider.Events.{delete_event, delete_by, deleted}
use starkbank_backend_challe.Provider.Failures.{raises_caught}
use starkbank_backend_challe.Provider.Transfers.{find_transfer}
use starkbank_backend_challe.TransferStore.{
  TransferSyncCandidate, sync_candidates, refresh_provider_status,
}
use starkbank_backend_challe.Commands.{
  SyncResult, CleanupResult, one_refreshed, one_unresolved, sync_found, sync_all,
  sync_transfer_statuses, deletion, delete_events,
}

module _ {W Bytes Object : Type 0} (client : StarkBankClient W Bytes Object) (clock : Clock W)
    (meanwhile : W → Database → Database) where
  -- The candidates that the result counts.
  abbrev counted : SyncResult → ℕ
  counted result = result.refreshed + result.unresolved

  sync_found-counted :
      (candidate : TransferSyncCandidate) (result : SyncResult)
      (found : Result (Option ProviderTransfer))
      → Yields
          (λ next. counted next ≡ suc (counted result))
          (sync_found client clock meanwhile candidate result found)
  unfolding sync_found one_refreshed one_unresolved
  sync_found-counted candidate result (ok (some transfer)) =
      Yields-then _ (read_clock clock) _ (λ now.
        Yields-then _ (transact (refresh_provider_status candidate.id transfer now)) _ (λ u.
          Yields-pure (λ next. counted next ≡ suc (counted result)) (one_refreshed result)
            (omega arith)))
  sync_found-counted candidate result (ok none) =
      Yields-pure (λ next. counted next ≡ suc (counted result)) (one_unresolved result)
        (omega arith)
  sync_found-counted candidate result (err (provider e)) =
      Yields-pure (λ next. counted next ≡ suc (counted result)) (one_unresolved result)
        (omega arith)
  sync_found-counted candidate result (err error) = record {
    yielded = λ db w a db' w' e. ground (arith, e);
  }

  sync_all-counted :
      (candidates : List TransferSyncCandidate) (result : SyncResult)
      → Yields
          (λ after. counted after ≡ length candidates + counted result)
          (sync_all client clock meanwhile candidates result)
  unfolding sync_all
  sync_all-counted [] result =
      Yields-pure (λ after. counted after ≡ 0 + counted result) result (omega arith)
  sync_all-counted (candidate ∷ candidates) result =
      Yields-then (λ after. counted after ≡ suc (length candidates) + counted result)
        (attempt (
          call meanwhile (
            find_transfer client
              (build_transfer_command candidate.invoice_id candidate.net_amount))))
        _
        (λ found.
          Yields-bind (λ next. counted next ≡ suc (counted result))
            (λ after. counted after ≡ suc (length candidates) + counted result)
            (sync_found client clock meanwhile candidate result found) _
            (sync_found-counted candidate result found)
            (λ next one. record {
              yielded = λ db w after db' w' e.
                  let rest = (sync_all-counted candidates next).yielded db w after db' w' e in
                  omega (arith, rest, one);
            }))

  -- A synchronisation that returns has counted each candidate once, as refreshed or as unresolved.
  sync_transfer_statuses_counted :
      (sql : OrderBy) (limit : ℕ) (db db' : Database) (w w' : W) (result : SyncResult)
      → sync_transfer_statuses client clock meanwhile sql limit db w ≡ (ok result, db', w')
      → result.refreshed + result.unresolved ≡ length (sync_candidates sql limit db)
  unfolding sync_transfer_statuses
  sync_transfer_statuses_counted sql limit db db' w w' result e =
      let all =
        (sync_all-counted (sync_candidates sql limit db)
            (record { refreshed = 0; unresolved = 0 })).yielded
          db w result db' w' e in
      omega (arith, all)

module _ {W Bytes Object : Type 0} (client : StarkBankClient W Bytes Object) (clock : Clock W)
    (meanwhile : W → Database → Database) (live : client.live_operations_enabled ≡ true) where
  -- The events that a result speaks of.
  abbrev pub handled : CleanupResult → List String
  handled result = result.deleted ++ result.failed

  deletion-handled :
      (event_id : String) (result : CleanupResult) (answer : Result (Unit {0}))
      → raises_caught answer ≡ true
      → (next : CleanupResult) × (deletion client clock meanwhile event_id result answer ≡ ok next)
        × Perm (handled next) (event_id ∷ handled result)
  unfolding deletion
  deletion-handled event_id result (ok u) h = (
    record result { deleted = result.deleted ++ event_id ∷ [] },
    refl,
    subst (λ l. Perm l (event_id ∷ handled result))
        (sym (append_assoc result.deleted (event_id ∷ []) result.failed))
        (perm_middle result.deleted result.failed),
  )
  deletion-handled event_id result (err (provider e)) h = (
    record result { failed = result.failed ++ event_id ∷ [] },
    refl,
    subst (λ l. Perm l (event_id ∷ handled result))
        (append_assoc result.deleted result.failed (event_id ∷ []))
        (Perm.trans (perm_middle (handled result) []) (
          Perm.cons event_id (
            subst (λ l. Perm l (handled result)) (sym (append-nil (handled result)))
              (Perm.refl _)))),
  )
  deletion-handled event_id result (err _) h = absurd (ground (arith, h))

  delete_event-caught :
      (event_id : String) (w : W) → raises_caught (delete_event client event_id w).0 ≡ true
  unfolding delete_event delete_by deleted raise_provider provider_error_of require_live
  delete_event-caught event_id w = ground (arith, live)

  -- While live operations are enabled, the clean-up of events goes through the whole list, whatever
  -- the provider answers to a deletion: it returns, and the ids that it reports as deleted, followed
  -- by those that it reports as failed, are those that it had reported before and the ids of the
  -- list, each as often as there.
  pub delete_events-handled :
      (event_ids : List String) (result : CleanupResult) (w : W)
      → (after : CleanupResult) × ((delete_events client clock meanwhile event_ids result w).0
          ≡ ok after)
        × Perm (handled after) (handled result ++ event_ids)
  unfolding delete_events
  delete_events-handled [] result w = (
    result,
    refl,
    subst (Perm (handled result)) (sym (append-nil (handled result))) (Perm.refl _),
  )
  delete_events-handled (event_id ∷ event_ids) result w =
      let (next, e, same) =
        deletion-handled event_id result (delete_event client event_id w).0
          (delete_event-caught event_id w) in
      let (after, d, rest) =
        delete_events-handled event_ids next (delete_event client event_id w).1 in
      (
        after,
        rw (delete_events, e) d,
        Perm.trans rest (
            Perm.trans (Perm.append_right event_ids same)
              (Perm.symm (perm_middle (handled result) event_ids))),
      )
