-- ===== src/Kernel/InMemoryLedger/Replay.antt =====
-- packages/kernel/src/in-memory-ledger.ts: the constructor, and the replay of a log.
use amca_core.Common.{
  ℕ, ◌+◌, String, true, false, ◌≡◌, refl, sym, ◌∙◌, List, [], ◌∷◌, ◌++◌, arith, Option, none, some,
  is_blank,
}
use mathlib.Core.Path.{subst}
use mathlib.Core.List.{append_assoc, append-nil}
use amca_core.Common.Equality.{string_has_eq}
use amca_core.Common.Outcome.{ok, bind-eq-ok, ok_inj, throw_if-eq-ok}
use amca_core.Protocol.Json.{nat, number_eq-eq}
use amca_core.Protocol.Host.{Host}
use amca_core.Contracts.Canonical.Copies.{is_json, is_json-reparse}
use amca_core.Kernel.Events.{
  Event, RunEventAppendInput, event_le, insert_event, order_events, check_event, check_events,
  clone_run_event, clone_run_events, order_and_validate_run_events, empty_run_id,
}
use amca_core.Kernel.InMemoryLedger.{InMemoryLedger, push, push_all, create, append, replay, events}
use amca_core.Kernel.InMemoryLedger.Copies.{
  ids_of, clone_of, clone_run_event_lem, clone_of_idem, check_event-clone,
}
use amca_core.Kernel.InMemoryLedger.Integrity.{IsIntact, log_append-IsIntact}

push_all_lem :
    (ledger : InMemoryLedger) (es : List Event)
    → push_all ledger es ≡ record {
      run_id = ledger.run_id;
      events = ledger.events ++ es;
      event_ids = ledger.event_ids ++ ids_of es;
    }
push_all_lem ledger [] = rw (append-nil, append-nil)
push_all_lem ledger (e ∷ es) = rw (
  push_all_lem (push ledger e) es,
  append_assoc ledger.events (e ∷ []) es,
  append_assoc ledger.event_ids (e.event_id ∷ []) (ids_of es),
)

module _ (host : Host) where
  empty-IsIntact :
      (run_id : String)
      → is_blank run_id ≡ false
      → IsIntact host (record { run_id = run_id; events = []; event_ids = [] })
  unfolding check_events clone_run_events
  empty-IsIntact run_id named = record {
    named = named;
    ids_kept = refl;
    ordered = refl;
    cloned = refl;
  }

  checked_sequence :
      (run_id : String) (index : ℕ) (ids : List String) (event : Event)
      → check_event host run_id index ids event ≡ ok tt
      → event.sequence ≡ nat (index + 1)
  unfolding check_event
  checked_sequence run_id index ids event h =
      ground (arith, number_eq-eq event.sequence (nat (index + 1)))

  insert_first :
      (index : ℕ) (event next : Event) (es : List Event)
      → event.sequence ≡ nat (index + 1)
      → next.sequence ≡ nat (index + 1 + 1)
      → insert_event host event (next ∷ es) ≡ event ∷ next ∷ es
  unfolding insert_event event_le
  insert_first index event next es h k = rw (h, k) (ground arith)

  -- A checked stream is in order.
  order-checked :
      (run_id : String) (index : ℕ) (ids : List String) (es : List Event)
      → check_events host run_id index ids es ≡ ok tt
      → order_events host es ≡ es
  unfolding order_events check_events insert_event
  order-checked run_id index ids [] h = refl
  order-checked run_id index ids (e ∷ []) h = refl
  order-checked run_id index ids (e ∷ f ∷ es) h =
      let (_, he, rest) = bind-eq-ok (check_event host run_id index ids e) _ h in
      let (_, hf, _) =
        bind-eq-ok (check_event host run_id (index + 1) (ids ++ e.event_id ∷ []) f) _ rest in
      rw (order-checked run_id (index + 1) (ids ++ e.event_id ∷ []) (f ∷ es) rest) (
        insert_first index e f es (checked_sequence run_id index ids e he)
          (checked_sequence run_id (index + 1) (ids ++ e.event_id ∷ []) f hf))

  -- Replaying an intact log returns its events.
  pub replay_intact :
      (ledger : InMemoryLedger) → IsIntact host ledger → replay host ledger ≡ ok ledger.events
  unfolding replay order_and_validate_run_events
  replay_intact ledger intact =
      rw (
        order-checked ledger.run_id 0 [] ledger.events intact.ordered,
        intact.ordered,
        intact.cloned,
      )

  -- A log that is made from the events of an intact log is that log.
  pub create_from_events :
      (ledger : InMemoryLedger)
      → IsIntact host ledger
      → create host ledger.run_id (some ledger.events) ≡ ok ledger
  unfolding create replay
  create_from_events ledger intact =
      rw (intact.named, replay_intact ledger intact, push_all_lem, sym intact.ids_kept)

  cloned_head :
      (e c : Event)
      → clone_run_event host e ≡ ok c
      → (c ≡ clone_of host e) × (is_json e.payload ≡ true)
  cloned_head e c h = ground (arith, clone_run_event_lem host e)

  -- The clones of a checked stream are checked, and are their own clones.
  clones_checked :
      (run_id : String) (index : ℕ) (ids : List String) (es cs : List Event)
      → clone_run_events host es ≡ ok cs
      → (check_events host run_id index ids cs ≡ check_events host run_id index ids es)
        × (clone_run_events host cs ≡ ok cs)
  unfolding clone_run_events check_events
  clones_checked run_id index ids [] cs h = rw (sym (ok_inj h)) (refl, refl)
  clones_checked run_id index ids (e ∷ es) cs h =
      let (c, one, h1) = bind-eq-ok (clone_run_event host e) _ h in
      let (rest, others, h2) = bind-eq-ok (clone_run_events host es) _ h1 in
      let (copy, json) = cloned_head e c one in
      let (checked, cloned) =
        clones_checked run_id (index + 1) (ids ++ e.event_id ∷ []) es rest others in
      let again : clone_run_event host c ≡ ok c =
        rw (copy, clone_run_event_lem, is_json-reparse host e.payload, json, clone_of_idem) refl in
      rw (sym (ok_inj h2)) (rw (copy, check_event-clone, checked) refl, rw (again, cloned))

  -- A log that the constructor makes is intact.
  pub create-IsIntact :
      (run_id : String) (initial_events : Option (List Event)) (ledger : InMemoryLedger)
      → create host run_id initial_events ≡ ok ledger
      → IsIntact host ledger
  unfolding create order_and_validate_run_events
  create-IsIntact run_id none ledger h =
      let (named, made) = throw_if-eq-ok (is_blank run_id) empty_run_id _ h in
      subst (IsIntact host) (ok_inj made) (empty-IsIntact run_id named)
  create-IsIntact run_id (some es) ledger h =
      let (named, h1) = throw_if-eq-ok (is_blank run_id) empty_run_id _ h in
      let (clones, checked, h2) =
        bind-eq-ok (order_and_validate_run_events host es (some run_id)) _ h1 in
      let (_, passed, cloned) =
        bind-eq-ok (check_events host run_id 0 [] (order_events host es)) _ checked in
      let (same, fixed) = clones_checked run_id 0 [] (order_events host es) clones cloned in
      subst (IsIntact host) (sym (push_all_lem _ clones) ∙ ok_inj h2)
        (record { named = named; ids_kept = refl; ordered = same ∙ passed; cloned = fixed })

-- The logs that the constructor makes, and what appends make of them, refused ones included.
pub data IsLog (host : Host) : InMemoryLedger → Type 0 where
  created :
      (run_id : String) (initial_events : Option (List Event)) (ledger : InMemoryLedger)
      → create host run_id initial_events ≡ ok ledger
      → IsLog host ledger
  appended :
      (input : RunEventAppendInput) (ledger : InMemoryLedger)
      → IsLog host ledger
      → IsLog host (append host input ledger).1

module _ (host : Host) where
  log-IsIntact : (ledger : InMemoryLedger) → IsLog host ledger → IsIntact host ledger
  log-IsIntact _ (created run_id initial_events ledger h) =
      create-IsIntact host run_id initial_events ledger h
  log-IsIntact _ (appended input ledger log) =
      (log_append-IsIntact host input ledger (log-IsIntact ledger log)).0

  -- A log that the constructor made and any appends were tried on reads and replays as the events it
  -- keeps, without an error, and a log made from these events with its run id is that log.
  pub log_replays :
      (ledger : InMemoryLedger)
      → IsLog host ledger
      → (events host ledger ≡ ok ledger.events)
        × (replay host ledger ≡ ok ledger.events)
        × (create host ledger.run_id (some ledger.events) ≡ ok ledger)
  unfolding events
  log_replays ledger log =
      let intact = log-IsIntact ledger log in
      (intact.cloned, replay_intact host ledger intact, create_from_events host ledger intact)
