-- ===== src/Ledger/Stream.antt =====
-- packages/ledger/src/semantic-ledger.ts: validateOrderedRunEvents, the check of a whole stream.
pub mod Snoc
use amca_core.Common.{
  ℕ, ◌+◌, String, Bool, not, Option, none, some, List, [], ◌∷◌, ◌++◌, any, ◌&&◌, if◌then◌else◌,
}
use amca_core.Common.Equality.{◌==◌, string_has_eq}
use amca_core.Common.Outcome.{ok, ◌>>=◌, ◌>>◌, throw_if}
use amca_core.Protocol.Json.{Number, nat, number_eq}
use amca_core.Protocol.Host.{Host}
use amca_core.Ledger.Error.{
  empty_run_id, run_id_mismatch, duplicate_event_id, duplicate_sequence, non_contiguous_sequence,
  invalid_causation_id,
}
use amca_core.Ledger.Event.{
  Event, Attempt, assert_non_empty_id, validate_run_event_shape, assert_payload_hash_matches,
  clone_run_events,
}

-- A Set of texts or of numbers, in insertion order.
abbrev pub has : List String → String → Bool
has ids id = any (λ x. x == id) ids

abbrev pub has_sequence : List Number → Number → Bool
has_sequence ns n = any (λ x. number_eq x n) ns

-- `event.causationId !== null && !seenEventIds.has(event.causationId)`
abbrev pub dangling : List String → Option String → Bool
dangling ids none = Bool.false
dangling ids (some cause) = not (has ids cause)

module _ (host : Host) (run_id : String) where
  -- The body of the loop at `index`, over the ids and sequences that were seen.
  unfoldable pub check_ordered_event : ℕ → List String → List Number → Event → Attempt (Unit {0})
  check_ordered_event index seen_event_ids seen_sequences event = do
    validate_run_event_shape event
    throw_if (not (event.run_id == run_id)) run_id_mismatch
    throw_if (has seen_event_ids event.event_id) duplicate_event_id
    throw_if (has_sequence seen_sequences event.sequence) duplicate_sequence
    throw_if (not (number_eq event.sequence (nat (index + 1)))) non_contiguous_sequence
    assert_payload_hash_matches host event
    throw_if (dangling seen_event_ids event.causation_id) invalid_causation_id

  unfoldable pub check_ordered_events :
      ℕ → List String → List Number → List Event → Attempt (Unit {0})
  check_ordered_events index seen_event_ids seen_sequences [] = ok tt
  check_ordered_events index seen_event_ids seen_sequences (event ∷ events) = do
    check_ordered_event index seen_event_ids seen_sequences event
    check_ordered_events (index + 1) (seen_event_ids ++ event.event_id ∷ [])
        (seen_sequences ++ event.sequence ∷ []) events

-- `expectedRunId ?? events[0]?.runId`
abbrev stream_run_id : Option String → Event → String
stream_run_id (some run_id) first = run_id
stream_run_id none first = first.run_id

unfoldable pub validate_ordered_run_events :
    Host → List Event → Option String → Attempt (List Event)
validate_ordered_run_events host [] expected = ok []
validate_ordered_run_events host (first ∷ rest) expected = do
  let run_id = stream_run_id expected first
  assert_non_empty_id run_id empty_run_id
  check_ordered_events host run_id 0 [] [] (first ∷ rest)
  clone_run_events host (first ∷ rest)
