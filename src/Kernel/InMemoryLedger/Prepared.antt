-- ===== src/Kernel/InMemoryLedger/Prepared.antt =====
-- packages/kernel/src/events.ts: what prepareRunEvent accepts, and the event it makes.
use amca_core.Common.{ℕ, ◌+◌, String, true, false, not, ◌≡◌, refl, sym, List, arith, is_blank}
use amca_core.Common.Equality.{◌==◌, string_has_eq, str_eq_iff}
use amca_core.Common.Outcome.{ok, bind-eq-ok, ok_inj, throw_if-eq-ok}
use amca_core.Protocol.Json.{Value, number_eq-eq, Number, nat}
use amca_core.Protocol.Host.{Host}
use amca_core.Contracts.Canonical.{reparse}
use amca_core.Contracts.Canonical.Copies.{is_json, is_json-reparse}
use amca_core.Contracts.Canonical.Idempotent.{reparse_idem}
use amca_core.Ledger.Stream.{has, dangling}
use amca_core.Kernel.Events.{
  Event, assert_expected_sequence, empty_event_id, empty_run_id, run_id_mismatch,
  payload_hash_mismatch, RunEventAppendInput, clone_json_compatible, hash_run_event_payload,
  assert_payload_hash_matches, prepare_run_event, number_or, differs, clone_run_event, check_event,
}
use amca_core.Kernel.InMemoryLedger.Copies.{value_copy, clone_run_event_lem, payload_hash-reparse}

module _ (host : Host) where
  -- The event that an accepted input becomes, with the hash of its payload.
  abbrev pub prepared : RunEventAppendInput → ℕ → String → Event
  prepared input expected_sequence payload_hash = record {
    event_id = input.event_id;
    run_id = input.run_id;
    sequence = number_or input.sequence (nat expected_sequence);
    type = input.type;
    payload = reparse host input.payload;
    payload_hash = payload_hash;
    causation_id = input.causation_id;
    correlation_id = input.correlation_id;
    occurred_at = input.occurred_at;
  }

  clone_json_compatible_lem :
      (v w : Value)
      → clone_json_compatible host v ≡ ok w
      → (is_json v ≡ true) × (w ≡ reparse host v)
  unfolding clone_json_compatible
  clone_json_compatible_lem v w h = ground (arith, value_copy v)

  -- What holds of an input that is accepted at a place, and of its event.
  pub record IsPrepared (input : RunEventAppendInput) (run_id : String) (place : ℕ) (event : Event)
      : Type 0 where
    pub has_id : is_blank input.event_id ≡ false
    pub has_run : is_blank input.run_id ≡ false
    pub same_run : (input.run_id == run_id) ≡ true
    pub in_place : assert_expected_sequence (number_or input.sequence (nat place)) place ≡ ok tt
    pub hashed : hash_run_event_payload host input.payload ≡ ok event.payload_hash
    pub json : is_json input.payload ≡ true
    pub is_event : event ≡ prepared input place event.payload_hash

  pub prepare_run_event_lem :
      (input : RunEventAppendInput) (run_id : String) (place : ℕ) (event : Event)
      → prepare_run_event host input run_id place ≡ ok event
      → IsPrepared input run_id place event
  unfolding prepare_run_event
  prepare_run_event_lem input run_id place event h =
      let (has_id, h1) = throw_if-eq-ok (is_blank input.event_id) empty_event_id _ h in
      let (has_run, h2) = throw_if-eq-ok (is_blank input.run_id) empty_run_id _ h1 in
      let (same_run, h3) = throw_if-eq-ok (not (input.run_id == run_id)) run_id_mismatch _ h2 in
      let (_, in_place, h4) =
        bind-eq-ok (assert_expected_sequence (number_or input.sequence (nat place)) place) _ h3 in
      let (hash, hashed, h5) = bind-eq-ok (hash_run_event_payload host input.payload) _ h4 in
      let (_, h6) = throw_if-eq-ok (differs input.payload_hash hash) payload_hash_mismatch _ h5 in
      let (payload, copied, h7) = bind-eq-ok (clone_json_compatible host input.payload) _ h6 in
      let (json, copy) = clone_json_compatible_lem input.payload payload copied in
      let made = sym (ok_inj h7) in
      record {
        has_id = has_id;
        has_run = has_run;
        same_run = ground arith;
        in_place = in_place;
        hashed = rw made hashed;
        json = json;
        is_event = rw (made, copy) refl;
      }

  pub prepared_checked :
      (input : RunEventAppendInput) (run_id : String) (index : ℕ) (ids : List String)
      (event : Event)
      → has ids input.event_id ≡ false
      → dangling ids input.causation_id ≡ false
      → IsPrepared input run_id (index + 1) event
      → check_event host run_id index ids event ≡ ok tt
  unfolding check_event assert_payload_hash_matches
  prepared_checked input run_id index ids event new cause p =
      rw (p.is_event, payload_hash-reparse host input.payload, p.hashed, p.in_place)
        (ground (
          arith,
          p.has_id,
          p.has_run,
          p.same_run,
          new,
          cause,
          str_eq_iff event.payload_hash event.payload_hash,
        ))

  pub prepared_cloned :
      (input : RunEventAppendInput) (run_id : String) (place : ℕ) (event : Event)
      → IsPrepared input run_id place event
      → clone_run_event host event ≡ ok event
  prepared_cloned input run_id place event p = rw (
    p.is_event,
    clone_run_event_lem,
    is_json-reparse host input.payload,
    p.json,
    reparse_idem host input.payload,
  )

  pub prepared_sequence :
      (n : Number) (place : ℕ) → assert_expected_sequence n place ≡ ok tt → n ≡ nat place
  unfolding assert_expected_sequence
  prepared_sequence n place h = ground (arith, number_eq-eq n (nat place))
