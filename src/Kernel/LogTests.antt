-- ===== src/Kernel/LogTests.antt =====
-- A log of one event, and the theorems on logs at it.
use amca_core.Common.{
  ◌+◌, true, false, none, some, ◌≡◌, ◌⊎◌, refl, [], length, is_blank, join, decimal,
}
use amca_core.Common.Outcome.{ok, err}
use amca_core.Protocol.Json.{num, obj, bool, end, field, nat}
use amca_core.Protocol.Samples.{engine}
use amca_core.Contracts.Canonical.{canonical_hash, canonical_json, reparse}
use amca_core.Contracts.Sha256.{sha256_hex}
use amca_core.Ledger.Stream.{has, dangling}
use amca_core.Kernel.Events.{
  Event, EventValidationErrorCode, RunEventAppendInput, prepare_run_event, assert_non_empty_id,
  assert_expected_sequence, hash_run_event_payload, to_json_value, clone_json_compatible,
  clone_run_event,
}
use amca_core.Kernel.InMemoryLedger.{InMemoryLedger, create, append, push, events, replay}
use amca_core.Kernel.InMemoryLedger.Copies.{ids_of}
use amca_core.Kernel.InMemoryLedger.Prepared.{prepared}
use amca_core.Kernel.InMemoryLedger.Integrity.{IsIntact, log_append-IsIntact, appended_event}
use amca_core.Kernel.InMemoryLedger.Replay.{create-IsIntact, created, appended, log_replays}

abbrev started : RunEventAppendInput
started = record {
  event_id = "evt_1";
  run_id = "run_1";
  sequence = none;
  type = "RunStarted";
  payload = obj (field "b" (num (nat 2)) (field "a" (bool true) end));
  payload_hash = none;
  causation_id = none;
  correlation_id = none;
  occurred_at = "2026-01-01T00:00:00.000Z";
}

abbrev fresh : InMemoryLedger
fresh = record { run_id = "run_1"; events = []; event_ids = [] }

abbrev start_event : Event
start_event =
    prepared engine started 1
      "sha256:e8837c10728b357106304c71610ad4e1a933b6d5b9d0b3950edaefa075aaa817"

fresh_made : create engine "run_1" none ≡ ok fresh
unfolding create is_blank
fresh_made = refl

start_accepted : append engine started fresh ≡ (ok start_event, push fresh start_event)
unfolding append prepare_run_event assert_non_empty_id assert_expected_sequence
    hash_run_event_payload to_json_value clone_json_compatible clone_run_event canonical_hash
    canonical_json reparse sha256_hex is_blank join decimal
start_accepted = refl

fresh-IsIntact : IsIntact engine fresh
fresh-IsIntact = create-IsIntact engine "run_1" none fresh fresh_made

log_append-IsIntact_example :
    let after = append engine started fresh in
    IsIntact engine after.1
    × (((event : Event) × (after.0 ≡ ok event) × (after.1 ≡ push fresh event))
        ⊎ ((code : EventValidationErrorCode) × (after.0 ≡ err code) × (after.1 ≡ fresh)))
log_append-IsIntact_example = log_append-IsIntact engine started fresh fresh-IsIntact

appended_event_example :
    (start_event.run_id ≡ fresh.run_id)
    × (has (ids_of fresh.events) start_event.event_id ≡ false)
    × (start_event.sequence ≡ nat (length fresh.events + 1))
    × (hash_run_event_payload engine start_event.payload ≡ ok start_event.payload_hash)
    × (dangling (ids_of fresh.events) start_event.causation_id ≡ false)
appended_event_example =
    appended_event engine started fresh start_event fresh-IsIntact (rw start_accepted refl)

abbrev started_log : InMemoryLedger
started_log = (append engine started fresh).1

log_replays_example :
    (events engine started_log ≡ ok started_log.events)
    × (replay engine started_log ≡ ok started_log.events)
    × (create engine started_log.run_id (some started_log.events) ≡ ok started_log)
log_replays_example =
    log_replays engine started_log (appended started fresh (created "run_1" none fresh fresh_made))
