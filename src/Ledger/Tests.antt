-- ===== src/Ledger/Tests.antt =====
-- A run of two events, its ledger, and the theorems at it.
use amca_core.Common.{is_blank, join, decimal, String, true, false, none, some, ◌≡◌, refl, [], ◌∷◌}
use amca_core.Common.Equality.{◌==◌, string_has_eq}
use amca_core.Common.Outcome.{ok, err}
use amca_core.Protocol.Json.{num, obj, bool, end, field, nat}
use amca_core.Protocol.Samples.{engine}
use amca_core.Contracts.Canonical.{canonical_hash, canonical_json, reparse}
use amca_core.Contracts.Sha256.{sha256_hex}
use amca_core.Ledger.Memory.Integrity.{
  run_of, appended, receipt_of, is_ok, IsIntact, append-IsIntact, append_all-IsIntact,
  empty-IsIntact,
}
use amca_core.Ledger.Memory.Refinement.{append_iff_validates}
use amca_core.Ledger.Memory.Rebuild.{append_all_iff_validates, rebuild_run}
use amca_core.Ledger.Memory.Verified.{verified_position}
use amca_core.Ledger.Memory.Reads.{stored_position, read_stored, read_after_append}
use amca_core.Ledger.Error.{duplicate_event_id}
use amca_core.Ledger.Event.{
  Event, to_json_value, validate_run_event_shape, assert_payload_hash_matches,
  hash_run_event_payload, clone_run_event,
}
use amca_core.Ledger.Event.Clone.{clone_of}
use amca_core.Ledger.Stream.{has, dangling, validate_ordered_run_events}
use amca_core.Ledger.Memory.{
  Ledger, empty, append_accepted_event_sync, append_all, read_run_events, get_run_event,
  verify_run_integrity,
}

abbrev started : Event
started = record {
  event_id = "evt_1";
  run_id = "run_1";
  sequence = nat 1;
  type = "RunStarted";
  payload = obj (field "a" (num (nat 1)) end);
  payload_hash = "sha256:015abd7f5cc57a2dd94b7590f04ad8084273905ee33ec5cebeae62276a97f862";
  causation_id = none;
  correlation_id = none;
  occurred_at = "2026-01-01T00:00:00.000Z";
}

-- Its payload has its keys out of order.
abbrev proposed : Event
proposed = record {
  event_id = "evt_2";
  run_id = "run_1";
  sequence = nat 2;
  type = "ProposalReceived";
  payload = obj (field "b" (num (nat 2)) (field "a" (bool true) end));
  payload_hash = "sha256:e8837c10728b357106304c71610ad4e1a933b6d5b9d0b3950edaefa075aaa817";
  causation_id = some "evt_1";
  correlation_id = none;
  occurred_at = "2026-01-01T00:00:01.000Z";
}

-- The ledgers after no, one and both appends.
abbrev first_ledger : Ledger
first_ledger = appended engine started empty

abbrev second_ledger : Ledger
second_ledger = appended engine proposed first_ledger

first_accepted :
    append_accepted_event_sync engine started empty ≡ ok (receipt_of engine started, first_ledger)
unfolding append_accepted_event_sync validate_run_event_shape assert_payload_hash_matches
    hash_run_event_payload clone_run_event to_json_value canonical_hash canonical_json reparse
    sha256_hex is_blank join decimal
first_accepted = refl

second_accepted :
    append_accepted_event_sync engine proposed first_ledger
    ≡ ok (receipt_of engine proposed, second_ledger)
unfolding append_accepted_event_sync validate_run_event_shape assert_payload_hash_matches
    hash_run_event_payload clone_run_event to_json_value canonical_hash canonical_json reparse
    sha256_hex is_blank join decimal
second_accepted = refl

first_ledger-IsIntact : IsIntact engine first_ledger
first_ledger-IsIntact =
    append-IsIntact engine started empty _ (empty-IsIntact engine) first_accepted

append_all-IsIntact_example : IsIntact engine second_ledger
append_all-IsIntact_example =
    append_all-IsIntact engine (started ∷ proposed ∷ []) empty second_ledger (empty-IsIntact engine)
      (unfold append_all in rw (first_accepted, second_accepted))

append_iff_validates_example :
    is_ok (append_accepted_event_sync engine proposed first_ledger)
    ≡ is_ok (
        validate_ordered_run_events engine (clone_of engine started ∷ proposed ∷ []) (some "run_1"))
append_iff_validates_example =
    append_iff_validates engine proposed first_ledger first_ledger-IsIntact

stored_position_example :
    (proposed.run_id ≡ "run_1")
    × (has ("evt_1" ∷ []) "evt_2" ≡ false)
    × (proposed.sequence ≡ nat 2)
    × (assert_payload_hash_matches engine (clone_of engine proposed) ≡ ok tt)
    × (dangling ("evt_1" ∷ []) (some "evt_1") ≡ false)
stored_position_example =
    stored_position engine second_ledger "run_1" (clone_of engine started ∷ [])
      (clone_of engine proposed) [] append_all-IsIntact_example refl

second_verified : verify_run_integrity engine "run_1" second_ledger ≡ ok tt
second_verified =
    (read_stored engine second_ledger "run_1"
      (clone_of engine started ∷ clone_of engine proposed ∷ []) append_all-IsIntact_example refl).1

verified_position_example :
    (proposed.run_id ≡ "run_1")
    × (has ("evt_1" ∷ []) "evt_2" ≡ false)
    × (proposed.sequence ≡ nat 2)
    × (assert_payload_hash_matches engine (clone_of engine proposed) ≡ ok tt)
    × (dangling ("evt_1" ∷ []) (some "evt_1") ≡ false)
verified_position_example =
    verified_position engine second_ledger "run_1" (clone_of engine started ∷ [])
      (clone_of engine proposed) [] second_verified refl

read_after_append_example :
    (read_run_events engine "run_1" second_ledger
      ≡ ok (clone_of engine started ∷ clone_of engine proposed ∷ []))
    × (get_run_event engine "run_1" "evt_2" second_ledger ≡ ok (clone_of engine proposed))
    × ((r : String)
        → ("run_1" == r) ≡ false
        → second_ledger.events_by_run r ≡ first_ledger.events_by_run r)
    × (append_accepted_event_sync engine proposed second_ledger ≡ err duplicate_event_id)
read_after_append_example =
    read_after_append engine proposed first_ledger (receipt_of engine proposed, second_ledger)
      first_ledger-IsIntact second_accepted

append_all_iff_validates_example :
    is_ok (append_all engine (started ∷ proposed ∷ []) empty)
    ≡ is_ok (validate_ordered_run_events engine (started ∷ proposed ∷ []) (some "run_1"))
append_all_iff_validates_example =
    append_all_iff_validates engine "run_1" (started ∷ proposed ∷ []) (unfold is_blank in refl)
      (refl, (refl, tt))

rebuild_run_example :
    (rebuilt : Ledger) × (append_all engine
        (clone_of engine started ∷ clone_of engine proposed ∷ [])
        empty
      ≡ ok rebuilt)
    × IsIntact engine rebuilt
    × (run_of engine rebuilt "run_1" ≡ clone_of engine started ∷ clone_of engine proposed ∷ [])
rebuild_run_example =
    rebuild_run engine second_ledger "run_1"
      (clone_of engine started ∷ clone_of engine proposed ∷ []) append_all-IsIntact_example refl
