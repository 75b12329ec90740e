-- ===== src/Ledger/Event.antt =====
-- packages/ledger/src/semantic-ledger.ts: the checks on one event, its payload's hash and its clone.
-- An event has its fields with their types here, so the tests of `typeof` on them are left out; the
-- payload is any value.
pub mod Clone
use text.Mathlib.Text.{starts_with}
use amca_core.Common.{String, not, ◌≡◌, if◌then◌else◌, is_blank, List, [], ◌∷◌}
use amca_core.Common.Equality.{◌==◌, string_has_eq}
use amca_core.Common.Outcome.{Result, ok, err, ◌>>=◌, ◌>>◌, throw_if}
use amca_core.Protocol.Json.{
  Value, Items, Fields, null, bool, num, str, arr, obj, undefined, nil, cons, end, field,
  is_positive_integer, is_finite,
}
use amca_core.Protocol.Events.{RunEvent}
use amca_core.Protocol.Host.{Host}
use amca_core.Contracts.Canonical.{TypeError, canonical_hash, reparse}
use amca_core.Ledger.Error.{
  LedgerErrorCode, empty_event_id, empty_run_id, invalid_sequence, integrity_violation,
  invalid_payload, payload_hash_mismatch,
}

abbrev pub Event : Type 0
Event = RunEvent Value

abbrev pub Attempt : Type 0 → Type 0
Attempt A = Result LedgerErrorCode A

unfoldable mutual
  pub to_json_value : Value → Attempt Value
  to_json_value null = ok null
  to_json_value (bool b) = ok (bool b)
  to_json_value (str s) = ok (str s)
  to_json_value (num n) = if is_finite n then ok (num n) else err invalid_payload
  to_json_value (arr xs) = do ys ← to_json_items xs; ok (arr ys)
  to_json_value (obj fs) = do gs ← to_json_object fs; ok (obj gs)
  to_json_value undefined = err invalid_payload

  pub to_json_items : Items → Attempt Items
  to_json_items nil = ok nil
  to_json_items (cons x xs) = do y ← to_json_value x; ys ← to_json_items xs; ok (cons y ys)

  pub to_json_object : Fields → Attempt Fields
  to_json_object end = ok end
  to_json_object (field k v fs) = do w ← to_json_value v; gs ← to_json_object fs; ok (field k w gs)

unfoldable pub assert_non_empty_id : String → LedgerErrorCode → Attempt (Unit {0})
assert_non_empty_id value code = throw_if (is_blank value) code

-- A value for its effect alone.
abbrev pub ignore {ℓ} : {A : Type ℓ} → Result LedgerErrorCode A → Attempt (Unit {0})
ignore (ok _) = ok tt
ignore (err e) = err e

unfoldable pub validate_run_event_shape : Event → Attempt (Unit {0})
unfolding assert_non_empty_id
validate_run_event_shape event = do
  assert_non_empty_id event.event_id empty_event_id
  assert_non_empty_id event.run_id empty_run_id
  throw_if (not (is_positive_integer event.sequence)) invalid_sequence
  throw_if (is_blank event.type) integrity_violation
  throw_if (not (starts_with event.payload_hash "sha256:")) integrity_violation
  throw_if (event.occurred_at == "") integrity_violation
  ignore (to_json_value event.payload)

module _ (host : Host) where
  -- `catch`: an error that is no LedgerError becomes one.
  abbrev pub catch_type_error : Result TypeError String → Attempt String
  catch_type_error (ok h) = ok h
  catch_type_error (err e) = err invalid_payload

  unfoldable pub hash_run_event_payload : Value → Attempt String
  hash_run_event_payload payload = do
    value ← to_json_value payload
    catch_type_error (canonical_hash host value)

  unfoldable pub assert_payload_hash_matches : Event → Attempt (Unit {0})
  assert_payload_hash_matches event = do
    payload_hash ← hash_run_event_payload event.payload
    throw_if (not (event.payload_hash == payload_hash)) payload_hash_mismatch

  unfoldable pub clone_run_event : Event → Attempt Event
  clone_run_event event = do
    validate_run_event_shape event
    value ← to_json_value event.payload
    ok (record event { payload = reparse host value })

  -- `events.map(cloneRunEvent)`
  unfoldable pub clone_run_events : List Event → Attempt (List Event)
  clone_run_events [] = ok []
  clone_run_events (event ∷ events) = do
    clone ← clone_run_event event
    clones ← clone_run_events events
    ok (clone ∷ clones)
