-- ===== src/Ledger/Event/Clone.antt =====
-- packages/ledger/src/semantic-ledger.ts: toJsonValue and cloneRunEvent in closed form.
use amca_core.Common.{Bool, ◌≡◌, refl, if◌then◌else◌, arith}
use amca_core.Common.Outcome.{Result, ok, err}
use amca_core.Protocol.Json.{
  Value, Items, Fields, null, bool, num, str, arr, obj, undefined, nil, cons, end, field,
}
use amca_core.Protocol.Host.{Host}
use amca_core.Contracts.Canonical.{reparse}
use amca_core.Contracts.Canonical.Copies.{is_json, is_json_items, is_json_fields, is_json-reparse}
use amca_core.Contracts.Canonical.Stable.{canonical_hash-reparse}
use amca_core.Contracts.Canonical.Idempotent.{reparse_idem}
use amca_core.Ledger.Error.{LedgerErrorCode, invalid_payload}
use amca_core.Ledger.Event.{
  Event, to_json_value, to_json_items, to_json_object, validate_run_event_shape,
  hash_run_event_payload, assert_payload_hash_matches, clone_run_event,
}

abbrev copy_of {ℓ} : {A : Type ℓ} → Bool → A → Result LedgerErrorCode A
copy_of b a = if b then ok a else err invalid_payload

mutual
  unfolding is_json to_json_value

  value_copy : (v : Value) → to_json_value v ≡ copy_of (is_json v) v
  value_copy null = refl
  value_copy (bool b) = refl
  value_copy (num n) = refl
  value_copy (str s) = refl
  value_copy undefined = refl
  value_copy (arr xs) = ground (arith, items_copy xs)
  value_copy (obj fs) = ground (arith, fields_copy fs)

  items_copy : (xs : Items) → to_json_items xs ≡ copy_of (is_json_items xs) xs
  items_copy nil = refl
  items_copy (cons x xs) = ground (arith, value_copy x, items_copy xs)

  fields_copy : (fs : Fields) → to_json_object fs ≡ copy_of (is_json_fields fs) fs
  fields_copy end = refl
  fields_copy (field k v fs) = ground (arith, value_copy v, fields_copy fs)

module _ (host : Host) where
  -- The clone of an event, where its payload is JSON.
  abbrev pub clone_of : Event → Event
  clone_of event = record event { payload = reparse host event.payload }

  pub clone_run_event_lem :
      (event : Event)
      → validate_run_event_shape event ≡ ok tt
      → clone_run_event host event ≡ ok (clone_of event)
  unfolding clone_run_event validate_run_event_shape
  clone_run_event_lem event h = ground (arith, value_copy event.payload)

  -- A clone passes the check of its shape exactly when the event does, with the same error.
  pub shape-clone_of :
      (event : Event) → validate_run_event_shape (clone_of event) ≡ validate_run_event_shape event
  unfolding validate_run_event_shape
  shape-clone_of event =
      rw
        (
          value_copy (reparse host event.payload),
          is_json-reparse host event.payload,
          value_copy event.payload,
        )
        (ground arith)

  pub hash-clone_of :
      (event : Event)
      → assert_payload_hash_matches host (clone_of event) ≡ assert_payload_hash_matches host event
  unfolding assert_payload_hash_matches hash_run_event_payload
  hash-clone_of event =
      rw
        (
          value_copy (reparse host event.payload),
          is_json-reparse host event.payload,
          value_copy event.payload,
        )
        (ground (arith, canonical_hash-reparse host event.payload))

  pub clone_of_idem : (event : Event) → clone_of (clone_of event) ≡ clone_of event
  clone_of_idem event = rw (reparse_idem host event.payload)
