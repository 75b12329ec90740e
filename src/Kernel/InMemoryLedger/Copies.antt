-- ===== src/Kernel/InMemoryLedger/Copies.antt =====
-- packages/kernel/src/events.ts: the copies of events, and the check of a log with one more event.
use mathlib.Core.List.{append_assoc, append-nil}
use native.Mathlib.Nat.{add-zero}
use amca_core.Common.{
  ℕ, suc, ◌+◌, String, Bool, ◌≡◌, refl, List, [], ◌∷◌, ◌++◌, length, if◌then◌else◌, arith,
}
use amca_core.Common.Equality.{string_has_eq}
use amca_core.Common.Outcome.{Result, ok, err, ◌>>=◌, ◌>>◌, then_assoc, then_done, regroup}
use amca_core.Protocol.Json.{
  Value, Items, Fields, null, bool, num, str, arr, obj, undefined, nil, cons, end, field,
}
use amca_core.Protocol.Host.{Host}
use amca_core.Contracts.Canonical.{reparse}
use amca_core.Contracts.Canonical.Copies.{is_json, is_json_items, is_json_fields, is_json-reparse}
use amca_core.Contracts.Canonical.Stable.{canonical_hash-reparse}
use amca_core.Contracts.Canonical.Idempotent.{reparse_idem}
use amca_core.Kernel.Events.{
  Event, EventValidationErrorCode, invalid_payload, to_json_value, to_json_array, to_json_object,
  hash_run_event_payload, assert_payload_hash_matches, clone_run_event, clone_run_events,
  check_event, check_events,
}

abbrev copy_of {ℓ} : {A : Type ℓ} → Bool → A → Result EventValidationErrorCode A
copy_of b a = if b then ok a else err invalid_payload

mutual
  unfolding is_json to_json_value

  pub value_copy : (v : Value) → to_json_value v ≡ copy_of (is_json v) v
  value_copy null = refl
  value_copy (bool b) = refl
  value_copy (num n) = refl
  value_copy (str s) = refl
  value_copy undefined = refl
  value_copy (arr xs) = ground (arith, array_copy xs)
  value_copy (obj fs) = ground (arith, object_copy fs)

  array_copy : (xs : Items) → to_json_array xs ≡ copy_of (is_json_items xs) xs
  array_copy nil = refl
  array_copy (cons x xs) = ground (arith, value_copy x, array_copy xs)

  object_copy : (fs : Fields) → to_json_object fs ≡ copy_of (is_json_fields fs) fs
  object_copy end = refl
  object_copy (field k v fs) = ground (arith, value_copy v, object_copy fs)

abbrev pub ids_of : List Event → List String
ids_of [] = []
ids_of (e ∷ es) = e.event_id ∷ ids_of es

index_shift : (index : ℕ) (es : List Event) → index + 1 + length es ≡ index + suc (length es)
index_shift index es = omega arith

module _ (host : Host) where
  -- The clone of an event, where its payload is JSON.
  abbrev pub clone_of : Event → Event
  clone_of event = record event { payload = reparse host event.payload }

  pub clone_run_event_lem :
      (event : Event)
      → clone_run_event host event ≡ copy_of (is_json event.payload) (clone_of event)
  unfolding clone_run_event
  clone_run_event_lem event = ground (arith, value_copy event.payload)

  pub clone_of_idem : (event : Event) → clone_of (clone_of event) ≡ clone_of event
  clone_of_idem event = rw (reparse_idem host event.payload)

  pub payload_hash-reparse :
      (v : Value) → hash_run_event_payload host (reparse host v) ≡ hash_run_event_payload host v
  unfolding hash_run_event_payload
  payload_hash-reparse v =
      rw (value_copy (reparse host v), is_json-reparse host v, value_copy v)
        (ground (arith, canonical_hash-reparse host v))

  -- The check of a clone is the check of the event.
  pub check_event-clone :
      (run_id : String) (index : ℕ) (ids : List String) (event : Event)
      → check_event host run_id index ids (clone_of event) ≡ check_event host run_id index ids event
  unfolding check_event assert_payload_hash_matches
  check_event-clone run_id index ids event = rw (payload_hash-reparse event.payload)

  pub clone_run_events-snoc :
      (es : List Event) (event : Event)
      → clone_run_events host (es ++ event ∷ []) ≡ (do
        clones ← clone_run_events host es
        clone ← clone_run_event host event
        ok (clones ++ clone ∷ []))
  unfolding clone_run_events
  clone_run_events-snoc [] event = refl
  clone_run_events-snoc (e ∷ es) event =
      rw (clone_run_events-snoc es event)
        (regroup (clone_run_event host e) (clone_run_events host es) (clone_run_event host event))

  pub check_events-snoc :
      (run_id : String) (index : ℕ) (ids : List String) (es : List Event) (event : Event)
      → check_events host run_id index ids (es ++ event ∷ []) ≡ (
          check_events host run_id index ids es
          >> check_event host run_id (index + length es) (ids ++ ids_of es) event)
  unfolding check_events
  check_events-snoc run_id index ids [] event =
      rw (add-zero, append-nil) (then_done (check_event host run_id index ids event))
  check_events-snoc run_id index ids (e ∷ es) event =
      rw
        (
          check_events-snoc run_id (index + 1) (ids ++ e.event_id ∷ []) es event,
          append_assoc ids (e.event_id ∷ []) (ids_of es),
          index_shift index es,
        )
        (then_assoc (check_event host run_id index ids e) _ _)
