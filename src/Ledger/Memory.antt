-- ===== src/Ledger/Memory.antt =====
-- packages/ledger/src/semantic-ledger.ts: InMemorySemanticLedger. The two maps are functions from
-- run ids; a promise that rejects is an error.
pub mod Integrity
pub mod Refinement
pub mod Reads
pub mod Verified
pub mod Rebuild
use amca_core.Common.{
  ◌+◌, String, Bool, true, false, not, Option, none, some, List, [], ◌∷◌, ◌++◌, any, find, length,
  if◌then◌else◌,
}
use amca_core.Common.Equality.{◌==◌, string_has_eq}
use amca_core.Common.Outcome.{ok, err, ◌>>=◌, ◌>>◌, throw_if}
use amca_core.Protocol.Json.{Number, nat, number_eq}
use amca_core.Protocol.Host.{Host}
use amca_core.Ledger.Error.{
  empty_run_id, empty_event_id, run_id_mismatch, duplicate_event_id, duplicate_sequence,
  non_contiguous_sequence, invalid_causation_id, run_not_found, event_not_found,
}
use amca_core.Ledger.Event.{
  Event, Attempt, assert_non_empty_id, validate_run_event_shape, assert_payload_hash_matches,
  clone_run_event, clone_run_events, ignore,
}
use amca_core.Ledger.Stream.{has, dangling, validate_ordered_run_events}

pub record Ledger : Type 0 where
  pub events_by_run : String → Option (List Event)
  pub event_ids_by_run : String → Option (List String)

pub record AppendRunEventResult : Type 0 where
  pub run_id : String
  pub event_id : String
  pub sequence : Number

abbrev pub empty : Ledger
empty = record { events_by_run = λ _. none; event_ids_by_run = λ _. none }

-- map.set(key, value)
abbrev pub update {ℓ} : {V : Type ℓ} → (String → Option V) → String → V → String → Option V
update m key value k = if key == k then some value else m k

-- `map.get(key) ?? []`
abbrev pub or_empty {ℓ} : {A : Type ℓ} → Option (List A) → List A
or_empty none = []
or_empty (some xs) = xs

module _ (host : Host) where
  unfoldable pub append_accepted_event_sync :
      Event → Ledger → Attempt (AppendRunEventResult × Ledger)
  append_accepted_event_sync event ledger = do
    validate_run_event_shape event
    assert_payload_hash_matches host event
    let events = or_empty (ledger.events_by_run event.run_id)
    let event_ids = or_empty (ledger.event_ids_by_run event.run_id)
    throw_if (has event_ids event.event_id) duplicate_event_id
    throw_if (any (λ candidate. number_eq candidate.sequence event.sequence) events)
        duplicate_sequence
    throw_if (not (number_eq event.sequence (nat (length events + 1)))) non_contiguous_sequence
    throw_if (dangling event_ids event.causation_id) invalid_causation_id
    clone ← clone_run_event host event
    ok (
      record { run_id = event.run_id; event_id = event.event_id; sequence = event.sequence },
      record {
        events_by_run = update ledger.events_by_run event.run_id (events ++ clone ∷ []);
        event_ids_by_run =
            update ledger.event_ids_by_run event.run_id (event_ids ++ event.event_id ∷ []);
      },
    )

  -- The constructor's loop over `initialEvents`.
  unfoldable pub append_all : List Event → Ledger → Attempt Ledger
  append_all [] ledger = ok ledger
  append_all (event ∷ events) ledger = do
    (_, next) ← append_accepted_event_sync event ledger
    append_all events next

  unfoldable pub append_accepted_event_to_run :
      String → Event → Ledger → Attempt (AppendRunEventResult × Ledger)
  append_accepted_event_to_run run_id event ledger = do
    assert_non_empty_id run_id empty_run_id
    throw_if (not (event.run_id == run_id)) run_id_mismatch
    append_accepted_event_sync event ledger

  abbrev found_run : Option (List Event) → Attempt (List Event)
  found_run none = err run_not_found
  found_run (some events) = ok events

  abbrev found_event : Option Event → Attempt Event
  found_event none = err event_not_found
  found_event (some event) = ok event

  unfoldable pub read_run_events : String → Ledger → Attempt (List Event)
  read_run_events run_id ledger = do
    assert_non_empty_id run_id empty_run_id
    events ← found_run (ledger.events_by_run run_id)
    clone_run_events host events

  unfoldable pub get_run_event : String → String → Ledger → Attempt Event
  get_run_event run_id event_id ledger = do
    assert_non_empty_id run_id empty_run_id
    assert_non_empty_id event_id empty_event_id
    events ← found_run (ledger.events_by_run run_id)
    event ← found_event (find (λ candidate. candidate.event_id == event_id) events)
    clone_run_event host event

  unfoldable pub verify_run_integrity : String → Ledger → Attempt (Unit {0})
  verify_run_integrity run_id ledger = do
    assert_non_empty_id run_id empty_run_id
    events ← found_run (ledger.events_by_run run_id)
    ignore (validate_ordered_run_events host events (some run_id))

abbrev is_some {ℓ} : {A : Type ℓ} → Option A → Bool
is_some none = false
is_some (some _) = true

unfoldable pub has_run : String → Ledger → Attempt Bool
has_run run_id ledger = do
  assert_non_empty_id run_id empty_run_id
  ok (is_some (ledger.events_by_run run_id))
