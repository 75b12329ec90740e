-- ===== src/Ledger/Memory/Reads.antt =====
-- packages/ledger/src/semantic-ledger.ts: the reads of a ledger.
use native.Mathlib.Nat.{zero-add, add-zero}
use mathlib.Core.List.{append_assoc, append-nil}
use amca_core.Common.{
  ℕ, suc, ◌+◌, String, true, false, some, ◌≡◌, refl, List, [], ◌∷◌, ◌++◌, length, find, is_blank,
  arith,
}
use amca_core.Common.Equality.{◌==◌, string_has_eq, str_eq_iff}
use amca_core.Common.Outcome.{ok, err, bind-eq-ok}
use amca_core.Protocol.Json.{Number, nat, number_eq-eq}
use amca_core.Protocol.Host.{Host}
use amca_core.Ledger.Error.{duplicate_event_id}
use amca_core.Ledger.Event.{
  Event, validate_run_event_shape, assert_payload_hash_matches, assert_non_empty_id,
}
use amca_core.Ledger.Event.Clone.{clone_of}
use amca_core.Ledger.Stream.{
  has, dangling, check_ordered_event, check_ordered_events, validate_ordered_run_events,
}
use amca_core.Ledger.Stream.Snoc.{event_ids, sequences}
use amca_core.Ledger.Memory.{
  Ledger, AppendRunEventResult, append_accepted_event_sync, read_run_events, get_run_event,
  verify_run_integrity, or_empty,
}
use amca_core.Ledger.Memory.Integrity.{
  IsIntact, run_of, appended, append_accepted, append-IsIntact, clone_of_clone,
}

module _ (host : Host) where
  -- The check at a position of a stream that passes.
  pub checked_at :
      (run_id : String) (index : ℕ) (ids : List String) (ns : List Number) (before : List Event)
      (event : Event) (after : List Event)
      → check_ordered_events host run_id index ids ns (before ++ event ∷ after) ≡ ok tt
      → check_ordered_event host run_id
          (index + length before)
          (ids ++ event_ids before)
          (ns ++ sequences before)
          event
        ≡ ok tt
  unfolding check_ordered_events
  checked_at run_id index ids ns [] event after h =
      rw (add-zero, append-nil ids, append-nil ns)
        (bind-eq-ok (check_ordered_event host run_id index ids ns event) _ h).1
  checked_at run_id index ids ns (e ∷ before) event after h =
      let rest = (bind-eq-ok (check_ordered_event host run_id index ids ns e) _ h).2 in
      let found =
        checked_at run_id (index + 1) (ids ++ e.event_id ∷ []) (ns ++ e.sequence ∷ []) before event
          after rest in
      rw
        (
          ← shift index (length before),
          ← append_assoc ids (e.event_id ∷ []) (event_ids before),
          ← append_assoc ns (e.sequence ∷ []) (sequences before),
        )
        found
    where
      shift : (i n : ℕ) → i + 1 + n ≡ i + suc n
      shift i n = omega arith

  -- What the check of one event says of it.
  pub record IsPlaced (run_id : String) (before : List Event) (event : Event) : Type 0 where
    pub same_run : event.run_id ≡ run_id
    pub new_id : has (event_ids before) event.event_id ≡ false
    pub next_sequence : event.sequence ≡ nat (length before + 1)
    pub hashed : assert_payload_hash_matches host event ≡ ok tt
    pub caused : dangling (event_ids before) event.causation_id ≡ false

  pub placed :
      (run_id : String) (before : List Event) (event : Event)
      → check_ordered_event host run_id (length before) (event_ids before) (sequences before) event
        ≡ ok tt
      → IsPlaced run_id before event
  unfolding check_ordered_event
  placed run_id before event h =
      ground (
        arith,
        str_eq_iff event.run_id run_id,
        number_eq-eq event.sequence (nat (length before + 1)),
      )

  -- In an intact ledger, the event at each position of a run carries that run's id, an id that no
  -- event before it has, the position counted from 1 as its sequence, the hash of its payload, and no
  -- cause but the id of an event before it.
  pub stored_position :
      (ledger : Ledger) (run_id : String) (before : List Event) (event : Event) (after : List Event)
      → IsIntact host ledger
      → ledger.events_by_run run_id ≡ some (before ++ event ∷ after)
      → (event.run_id ≡ run_id)
        × (has (event_ids before) event.event_id ≡ false)
        × (event.sequence ≡ nat (length before + 1))
        × (assert_payload_hash_matches host event ≡ ok tt)
        × (dangling (event_ids before) event.causation_id ≡ false)
  stored_position ledger run_id before event after intact h =
      let s = intact.stored run_id (before ++ event ∷ after) h in
      let p =
        placed run_id before event
          (rw zero-add at (checked_at run_id 0 [] [] before event after s.ordered)) in
      (p.same_run, p.new_id, p.next_sequence, p.hashed, p.caused)

  -- Reading a stored run of an intact ledger returns its events, and its integrity check passes.
  pub read_stored :
      (ledger : Ledger) (run_id : String) (events : List Event)
      → IsIntact host ledger
      → ledger.events_by_run run_id ≡ some events
      → (read_run_events host run_id ledger ≡ ok events)
        × (verify_run_integrity host run_id ledger ≡ ok tt)
  unfolding read_run_events verify_run_integrity assert_non_empty_id validate_ordered_run_events
  read_stored ledger run_id [] intact h =
      let s = intact.stored run_id [] h in (rw (s.named, h) s.cloned, rw (s.named, h))
  read_stored ledger run_id (e ∷ es) intact h =
      let s = intact.stored run_id (e ∷ es) h in
      (rw (s.named, h) s.cloned, rw (s.named, h, s.ordered, s.cloned) (rw s.named))

  find_last :
      (events : List Event) (event : Event)
      → has (event_ids events) event.event_id ≡ false
      → find
          (λ candidate. candidate.event_id == event.event_id)
          (events ++ clone_of host event ∷ [])
        ≡ some (clone_of host event)
  find_last [] event h = rw ((str_eq_iff event.event_id event.event_id).1 refl)
  find_last (e ∷ es) event h = ground (arith, find_last es event)

  accepted_is_new :
      (event : Event) (ledger : Ledger) (result : AppendRunEventResult × Ledger)
      → IsIntact host ledger
      → append_accepted_event_sync host event ledger ≡ ok result
      → has (event_ids (run_of host ledger event.run_id)) event.event_id ≡ false
  unfolding append_accepted_event_sync
  accepted_is_new event ledger result intact h = ground (arith, intact.ids_kept event.run_id)

  shape-ids :
      (event : Event)
      → validate_run_event_shape event ≡ ok tt
      → (is_blank event.event_id ≡ false) × (is_blank event.run_id ≡ false)
  unfolding validate_run_event_shape
  shape-ids event h = ground arith

  has_last : (ids : List String) (id : String) → has (ids ++ id ∷ []) id ≡ true
  has_last [] id = rw ((str_eq_iff id id).1 refl)
  has_last (x ∷ ids) id = ground (arith, has_last ids id)

  stored_after :
      (event : Event) (ledger : Ledger)
      → (appended host event ledger).events_by_run event.run_id
        ≡ some (run_of host ledger event.run_id ++ clone_of host event ∷ [])
  stored_after event ledger = rw ((str_eq_iff event.run_id event.run_id).1 refl)

  second_append :
      (event : Event) (ledger : Ledger) (result : AppendRunEventResult × Ledger)
      → append_accepted_event_sync host event ledger ≡ ok result
      → append_accepted_event_sync host event (appended host event ledger) ≡ err duplicate_event_id
  unfolding append_accepted_event_sync
  second_append event ledger result h = ground (
    arith,
    str_eq_iff event.run_id event.run_id,
    has_last (or_empty (ledger.event_ids_by_run event.run_id)) event.event_id,
  )

  get_after :
      (event : Event) (ledger : Ledger) (result : AppendRunEventResult × Ledger)
      → IsIntact host ledger
      → append_accepted_event_sync host event ledger ≡ ok result
      → validate_run_event_shape event ≡ ok tt
      → get_run_event host event.run_id event.event_id (appended host event ledger)
        ≡ ok (clone_of host event)
  unfolding get_run_event assert_non_empty_id
  get_after event ledger result intact h shape =
      let (named, run_named) = shape-ids event shape in
      rw (named, run_named, stored_after event ledger)
        (rw
          (find_last (run_of host ledger event.run_id) event
            (accepted_is_new event ledger result intact h))
          (clone_of_clone host event shape))

  -- After an accepted append to an intact ledger, its run reads as before with the clone of the event
  -- at its end, the event is found by its id as that clone, every other run is as it was, and a second
  -- append of the event is refused as a duplicate.
  pub read_after_append :
      (event : Event) (ledger : Ledger) (result : AppendRunEventResult × Ledger)
      → IsIntact host ledger
      → append_accepted_event_sync host event ledger ≡ ok result
      → (read_run_events host event.run_id result.1
          ≡ ok (run_of host ledger event.run_id ++ clone_of host event ∷ []))
        × (get_run_event host event.run_id event.event_id result.1 ≡ ok (clone_of host event))
        × ((r : String)
            → (event.run_id == r) ≡ false
            → result.1.events_by_run r ≡ ledger.events_by_run r)
        × (append_accepted_event_sync host event result.1 ≡ err duplicate_event_id)
  read_after_append event ledger result intact h =
      let (e, shape) = append_accepted host event ledger result h in
      rw e (
        (read_stored (appended host event ledger) event.run_id _
            (rw e at (append-IsIntact host event ledger result intact h))
            (stored_after event ledger)).0,
        get_after event ledger result intact h shape,
        (λ r apart. rw apart),
        second_append event ledger result h,
      )
