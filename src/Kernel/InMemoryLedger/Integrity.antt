-- ===== src/Kernel/InMemoryLedger/Integrity.antt =====
-- packages/kernel/src/in-memory-ledger.ts: what every log keeps.
use native.Mathlib.Nat.{zero-add}
use amca_core.Common.{
  ◌+◌, false, ◌≡◌, refl, sym, ap, ◌∙◌, List, [], ◌∷◌, ◌++◌, length, is_blank, inl, inr, ◌⊎◌,
}
use amca_core.Common.Equality.{string_has_eq}
use amca_core.Common.Outcome.{ok, err, ok_inj, throw_if-eq-ok, Result-cases}
use amca_core.Protocol.Json.{nat}
use amca_core.Protocol.Host.{Host}
use amca_core.Ledger.Stream.{has, dangling}
use amca_core.Kernel.Events.{
  Event, EventValidationErrorCode, duplicate_event_id, invalid_causation_id, RunEventAppendInput,
  hash_run_event_payload, clone_run_event, clone_run_events, check_event, check_events,
}
use amca_core.Kernel.InMemoryLedger.{InMemoryLedger, push, append, prepare}
use amca_core.Kernel.InMemoryLedger.Copies.{
  ids_of, payload_hash-reparse, check_events-snoc, clone_run_events-snoc,
}
use amca_core.Kernel.InMemoryLedger.Prepared.{
  IsPrepared, prepare_run_event_lem, prepared_checked, prepared_cloned, prepared_sequence,
}

module _ (host : Host) where
  -- A log has the ids of its events, which pass the check of the run and are clones.
  pub record IsIntact (ledger : InMemoryLedger) : Type 0 where
    pub named : is_blank ledger.run_id ≡ false
    pub ids_kept : ledger.event_ids ≡ ids_of ledger.events
    pub ordered : check_events host ledger.run_id 0 [] ledger.events ≡ ok tt
    pub cloned : clone_run_events host ledger.events ≡ ok ledger.events

  ids_of-snoc : (es : List Event) (e : Event) → ids_of (es ++ e ∷ []) ≡ ids_of es ++ e.event_id ∷ []
  ids_of-snoc [] e = refl
  ids_of-snoc (x ∷ es) e = ap (λ ids. x.event_id ∷ ids) (ids_of-snoc es e)

  -- What `append` accepts.
  pub prepare_lem :
      (input : RunEventAppendInput) (ledger : InMemoryLedger) (event : Event)
      → prepare host input ledger ≡ ok event
      → (has ledger.event_ids input.event_id ≡ false)
        × (dangling ledger.event_ids input.causation_id ≡ false)
        × IsPrepared host input ledger.run_id (length ledger.events + 1) event
  unfolding prepare
  prepare_lem input ledger event h =
      let (new, h1) = throw_if-eq-ok (has ledger.event_ids input.event_id) duplicate_event_id _ h in
      let (cause, h2) =
        throw_if-eq-ok (dangling ledger.event_ids input.causation_id) invalid_causation_id _ h1 in
      (
        new,
        cause,
        prepare_run_event_lem host input ledger.run_id (length ledger.events + 1) event h2,
      )

  push-IsIntact :
      (ledger : InMemoryLedger) (event : Event)
      → IsIntact ledger
      → check_event host ledger.run_id (length ledger.events) ledger.event_ids event ≡ ok tt
      → clone_run_event host event ≡ ok event
      → IsIntact (push ledger event)
  push-IsIntact ledger event intact checked cloned = record {
    named = intact.named;
    ids_kept = rw (intact.ids_kept, ids_of-snoc ledger.events event);
    ordered =
        rw
          (
            check_events-snoc host ledger.run_id 0 [] ledger.events event,
            intact.ordered,
            zero-add,
            sym intact.ids_kept,
          )
          checked;
    cloned = rw (clone_run_events-snoc host ledger.events event, intact.cloned, cloned);
  }

  write_lem :
      (input : RunEventAppendInput) (ledger : InMemoryLedger) (event : Event)
      → IsIntact ledger
      → prepare host input ledger ≡ ok event
      → (IsIntact (push ledger event)) × (clone_run_event host event ≡ ok event)
  write_lem input ledger event intact h =
      let (new, cause, p) = prepare_lem input ledger event h in
      let checked =
        prepared_checked host input ledger.run_id (length ledger.events) ledger.event_ids event new
          cause p in
      let cloned = prepared_cloned host input ledger.run_id (length ledger.events + 1) event p in
      (push-IsIntact ledger event intact checked cloned, cloned)

  -- Every append leaves an intact log intact: one that throws leaves the log as it was, and one that
  -- does not throw returns the event that it put at the end.
  pub log_append-IsIntact :
      (input : RunEventAppendInput) (ledger : InMemoryLedger)
      → IsIntact ledger
      → let after = append host input ledger in
        IsIntact after.1
        × (((event : Event) × (after.0 ≡ ok event) × (after.1 ≡ push ledger event))
            ⊎ ((code : EventValidationErrorCode) × (after.0 ≡ err code) × (after.1 ≡ ledger)))
  unfolding append
  log_append-IsIntact input ledger intact = elim (Result-cases (prepare host input ledger)) [
    | inl (event, accepted) ↦
        let (after, cloned) = write_lem input ledger event intact accepted in
        rw accepted (after, inl (event, cloned, refl))
    | inr (code, refused) ↦ rw refused (intact, inr (code, refl, refl))
  ]

  -- The event that an append to an intact log returns is of the log's run, has an id that no event of
  -- the log has, the position behind them counted from 1 as its sequence, the hash of its payload, and no
  -- cause but the id of an event of the log.
  pub appended_event :
      (input : RunEventAppendInput) (ledger : InMemoryLedger) (event : Event)
      → IsIntact ledger
      → (append host input ledger).0 ≡ ok event
      → (event.run_id ≡ ledger.run_id)
        × (has (ids_of ledger.events) event.event_id ≡ false)
        × (event.sequence ≡ nat (length ledger.events + 1))
        × (hash_run_event_payload host event.payload ≡ ok event.payload_hash)
        × (dangling (ids_of ledger.events) event.causation_id ≡ false)
  unfolding append
  appended_event input ledger event intact h = elim (Result-cases (prepare host input ledger)) [
    | inl (made, accepted) ↦
        let (_, cloned) = write_lem input ledger made intact accepted in
        let same : made ≡ event = ok_inj (sym cloned ∙ (rw accepted at h)) in
        let (new, cause, p) = prepare_lem input ledger made accepted in
        rw (sym same, sym intact.ids_kept, p.is_event)
          (
            (string_has_eq.beq_iff _ _).0 p.same_run,
            new,
            prepared_sequence host _ _ p.in_place,
            payload_hash-reparse host input.payload ∙ p.hashed,
            cause,
          )
    | inr (code, refused) ↦ cc (rw refused at h)
  ]
