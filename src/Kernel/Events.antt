-- ===== src/Kernel/Events.antt =====
-- packages/kernel/src/events.ts: the preparation, the check and the clone of an event. Sparse arrays
-- and class instances are left out with the values that hold them.
use amca_core.Common.{
  ℕ, ◌+◌, String, Bool, false, not, Option, none, some, List, [], ◌∷◌, ◌++◌, if◌then◌else◌,
  is_blank,
}
use amca_core.Common.Equality.{◌==◌, string_has_eq}
use amca_core.Common.Outcome.{Result, ok, err, ◌>>=◌, ◌>>◌, throw_if}
use amca_core.Protocol.Json.{
  Number, Value, Items, Fields, null, bool, num, str, arr, obj, undefined, nil, cons, end, field,
  nat, is_finite, is_positive_integer, number_eq, number_le,
}
use amca_core.Protocol.Events.{RunEvent}
use amca_core.Protocol.Host.{Host}
use amca_core.Contracts.Canonical.{TypeError, canonical_hash, reparse}
use amca_core.Ledger.Stream.{has, dangling}

pub data EventValidationErrorCode : Type 0 where
  duplicate_event_id empty_event_id empty_run_id : EventValidationErrorCode
  invalid_causation_id invalid_payload invalid_sequence : EventValidationErrorCode
  payload_hash_mismatch run_id_mismatch : EventValidationErrorCode

abbrev pub Event : Type 0
Event = RunEvent Value

abbrev pub Checked : Type 0 → Type 0
Checked A = Result EventValidationErrorCode A

-- An absent `causationId` or `correlationId` is read as null.
pub record RunEventAppendInput : Type 0 where
  pub event_id : String
  pub run_id : String
  pub sequence : Option Number
  pub type : String
  pub payload : Value
  pub payload_hash : Option String
  pub causation_id : Option String
  pub correlation_id : Option String
  pub occurred_at : String

unfoldable mutual
  pub to_json_value : Value → Checked Value
  to_json_value null = ok null
  to_json_value (bool b) = ok (bool b)
  to_json_value (str s) = ok (str s)
  to_json_value (num n) = if is_finite n then ok (num n) else err invalid_payload
  to_json_value (arr xs) = do ys ← to_json_array xs; ok (arr ys)
  to_json_value (obj fs) = do gs ← to_json_object fs; ok (obj gs)
  to_json_value undefined = err invalid_payload

  pub to_json_array : Items → Checked Items
  to_json_array nil = ok nil
  to_json_array (cons x xs) = do y ← to_json_value x; ys ← to_json_array xs; ok (cons y ys)

  pub to_json_object : Fields → Checked Fields
  to_json_object end = ok end
  to_json_object (field k v fs) = do w ← to_json_value v; gs ← to_json_object fs; ok (field k w gs)

unfoldable pub assert_non_empty_id : String → EventValidationErrorCode → Checked (Unit {0})
assert_non_empty_id value code = throw_if (is_blank value) code

unfoldable pub assert_expected_sequence : Number → ℕ → Checked (Unit {0})
assert_expected_sequence sequence expected_sequence = do
  throw_if (not (is_positive_integer sequence)) invalid_sequence
  throw_if (not (number_eq sequence (nat expected_sequence))) invalid_sequence

-- `left.sequence - right.sequence`, then the order of the ids: whether left may stand first.
unfoldable pub event_le : Host → Event → Event → Bool
event_le host left right =
    if number_eq left.sequence right.sequence
    then host.locale_le left.event_id right.event_id
    else number_le left.sequence right.sequence

-- `value ?? otherwise`
abbrev pub number_or : Option Number → Number → Number
number_or none otherwise = otherwise
number_or (some n) otherwise = n

-- `expected !== undefined && expected !== actual`
abbrev pub differs : Option String → String → Bool
differs none actual = false
differs (some expected) actual = not (expected == actual)

module _ (host : Host) where
  abbrev pub catch_type_error : Result TypeError String → Checked String
  catch_type_error (ok h) = ok h
  catch_type_error (err e) = err invalid_payload

  unfoldable pub hash_run_event_payload : Value → Checked String
  hash_run_event_payload payload = do
    value ← to_json_value payload
    catch_type_error (canonical_hash host value)

  unfoldable pub clone_json_compatible : Value → Checked Value
  clone_json_compatible value = do json ← to_json_value value; ok (reparse host json)

  unfoldable pub clone_run_event : Event → Checked Event
  unfolding clone_json_compatible
  clone_run_event event = do
    payload ← clone_json_compatible event.payload
    ok (record event { payload = payload })

  unfoldable pub clone_run_events : List Event → Checked (List Event)
  clone_run_events [] = ok []
  clone_run_events (event ∷ events) = do
    clone ← clone_run_event event
    clones ← clone_run_events events
    ok (clone ∷ clones)

  unfoldable pub assert_payload_hash_matches : Event → Checked (Unit {0})
  assert_payload_hash_matches event = do
    payload_hash ← hash_run_event_payload event.payload
    throw_if (not (event.payload_hash == payload_hash)) payload_hash_mismatch

  unfoldable pub prepare_run_event : RunEventAppendInput → String → ℕ → Checked Event
  unfolding assert_non_empty_id assert_expected_sequence
  prepare_run_event input expected_run_id expected_sequence = do
    assert_non_empty_id input.event_id empty_event_id
    assert_non_empty_id input.run_id empty_run_id
    throw_if (not (input.run_id == expected_run_id)) run_id_mismatch
    let sequence = number_or input.sequence (nat expected_sequence)
    assert_expected_sequence sequence expected_sequence
    payload_hash ← hash_run_event_payload input.payload
    throw_if (differs input.payload_hash payload_hash) payload_hash_mismatch
    payload ← clone_json_compatible input.payload
    ok (record {
      event_id = input.event_id;
      run_id = input.run_id;
      sequence = sequence;
      type = input.type;
      payload = payload;
      payload_hash = payload_hash;
      causation_id = input.causation_id;
      correlation_id = input.correlation_id;
      occurred_at = input.occurred_at;
    })

  -- The stable sort.
  unfoldable pub insert_event : Event → List Event → List Event
  insert_event event [] = event ∷ []
  insert_event event (next ∷ events) =
      if event_le host event next then event ∷ next ∷ events else next ∷ insert_event event events

  unfoldable pub order_events : List Event → List Event
  order_events [] = []
  order_events (event ∷ events) = insert_event event (order_events events)

  -- The body of the loop at `index`.
  unfoldable pub check_event : String → ℕ → List String → Event → Checked (Unit {0})
  unfolding assert_non_empty_id assert_expected_sequence
  check_event run_id index seen_event_ids event = do
    assert_non_empty_id event.event_id empty_event_id
    assert_non_empty_id event.run_id empty_run_id
    throw_if (not (event.run_id == run_id)) run_id_mismatch
    throw_if (has seen_event_ids event.event_id) duplicate_event_id
    assert_expected_sequence event.sequence (index + 1)
    assert_payload_hash_matches event
    throw_if (dangling seen_event_ids event.causation_id) invalid_causation_id

  unfoldable pub check_events : String → ℕ → List String → List Event → Checked (Unit {0})
  check_events run_id index seen_event_ids [] = ok tt
  check_events run_id index seen_event_ids (event ∷ events) = do
    check_event run_id index seen_event_ids event
    check_events run_id (index + 1) (seen_event_ids ++ event.event_id ∷ []) events

  -- `expectedRunId ?? ordered[0]?.runId`
  abbrev pub expected_or_first : Option String → List Event → Option String
  expected_or_first (some run_id) ordered = some run_id
  expected_or_first none [] = none
  expected_or_first none (first ∷ rest) = some first.run_id

  abbrev pub validate_ordered : Option String → List Event → Checked (List Event)
  validate_ordered none ordered = ok []
  validate_ordered (some run_id) ordered = do
    check_events run_id 0 [] ordered
    clone_run_events ordered

  unfoldable pub order_and_validate_run_events : List Event → Option String → Checked (List Event)
  order_and_validate_run_events events expected_run_id =
      let ordered = order_events events in
      validate_ordered (expected_or_first expected_run_id ordered) ordered
