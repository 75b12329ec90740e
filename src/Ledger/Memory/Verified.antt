-- ===== src/Ledger/Memory/Verified.antt =====
-- packages/ledger/src/semantic-ledger.ts: verifyRunIntegrity, on any ledger.
use native.Mathlib.Nat.{zero-add}
use amca_core.Common.{◌+◌, String, false, some, ◌≡◌, refl, List, [], ◌∷◌, ◌++◌, length}
use amca_core.Common.Outcome.{ok, err, bind-eq-ok}
use amca_core.Protocol.Json.{nat}
use amca_core.Protocol.Host.{Host}
use amca_core.Ledger.Error.{empty_run_id}
use amca_core.Ledger.Event.{
  Event, Attempt, ignore, assert_payload_hash_matches, assert_non_empty_id,
}
use amca_core.Ledger.Stream.{has, dangling, check_ordered_events, validate_ordered_run_events}
use amca_core.Ledger.Stream.Snoc.{event_ids}
use amca_core.Ledger.Memory.{Ledger, verify_run_integrity}
use amca_core.Ledger.Memory.Reads.{checked_at, placed}

ignore-eq-ok : {A : Type 0} (m : Attempt A) → ignore m ≡ ok tt → (a : A) × (m ≡ ok a)
ignore-eq-ok (ok a) h = (a, refl)
ignore-eq-ok (err e) h = cc

module _ (host : Host) where
  stream_checked :
      (events validated : List Event) (run_id : String)
      → validate_ordered_run_events host events (some run_id) ≡ ok validated
      → check_ordered_events host run_id 0 [] [] events ≡ ok tt
  unfolding validate_ordered_run_events check_ordered_events
  stream_checked [] validated run_id h = refl
  stream_checked (e ∷ es) validated run_id h =
      (bind-eq-ok (check_ordered_events host run_id 0 [] [] (e ∷ es)) _
        (bind-eq-ok (assert_non_empty_id run_id empty_run_id) _ h).2).1

  -- When the integrity check of a run passes, on any ledger, the event at each position of the run
  -- carries the run's id, an id that no event before it has, the position counted from 1 as its
  -- sequence, the hash of its payload, and no cause but the id of an event before it.
  pub verified_position :
      (ledger : Ledger) (run_id : String) (before : List Event) (event : Event) (after : List Event)
      → verify_run_integrity host run_id ledger ≡ ok tt
      → ledger.events_by_run run_id ≡ some (before ++ event ∷ after)
      → (event.run_id ≡ run_id)
        × (has (event_ids before) event.event_id ≡ false)
        × (event.sequence ≡ nat (length before + 1))
        × (assert_payload_hash_matches host event ≡ ok tt)
        × (dangling (event_ids before) event.causation_id ≡ false)
  unfolding verify_run_integrity
  verified_position ledger run_id before event after h stored =
      let events = before ++ event ∷ after in
      let read = (bind-eq-ok (assert_non_empty_id run_id empty_run_id) _ h).2 in
      let (validated, passed) =
        ignore-eq-ok (validate_ordered_run_events host events (some run_id)) (rw stored at read) in
      let ordered = stream_checked events validated run_id passed in
      let p =
        placed host run_id before event
          (rw zero-add at (checked_at host run_id 0 [] [] before event after ordered)) in
      (p.same_run, p.new_id, p.next_sequence, p.hashed, p.caused)
