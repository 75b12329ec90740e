-- ===== src/Kernel/InMemoryLedger.antt =====
-- packages/kernel/src/in-memory-ledger.ts: the event log of one run.
pub mod Copies
pub mod Prepared
pub mod Integrity
pub mod Replay
use amca_core.Common.{
  ℕ, ◌+◌, String, Option, none, some, List, [], ◌∷◌, ◌++◌, length, is_blank, if◌then◌else◌,
}
use amca_core.Common.Outcome.{ok, err, ◌>>=◌, ◌>>◌, throw_if}
use amca_core.Protocol.Host.{Host}
use amca_core.Ledger.Stream.{has, dangling}
use amca_core.Kernel.Events.{
  Event, Checked, RunEventAppendInput, duplicate_event_id, invalid_causation_id, empty_run_id,
  assert_non_empty_id, prepare_run_event, clone_run_event, clone_run_events,
  order_and_validate_run_events,
}

pub record InMemoryLedger : Type 0 where
  pub run_id : String
  pub events : List Event
  pub event_ids : List String

abbrev pub push : InMemoryLedger → Event → InMemoryLedger
push ledger event = record {
  run_id = ledger.run_id;
  events = ledger.events ++ event ∷ [];
  event_ids = ledger.event_ids ++ event.event_id ∷ [];
}

-- The constructor's loop over the ordered events.
abbrev pub push_all : InMemoryLedger → List Event → InMemoryLedger
push_all ledger [] = ledger
push_all ledger (event ∷ events) = push_all (push ledger event) events

abbrev pub last_sequence : InMemoryLedger → ℕ
last_sequence ledger = length ledger.events

module _ (host : Host) where
  abbrev initial : InMemoryLedger → Option (List Event) → Checked InMemoryLedger
  initial ledger none = ok ledger
  initial ledger (some initial_events) = do
    events ← order_and_validate_run_events host initial_events (some ledger.run_id)
    ok (push_all ledger events)

  -- The constructor.
  unfoldable pub create : String → Option (List Event) → Checked InMemoryLedger
  unfolding assert_non_empty_id
  create run_id initial_events = do
    throw_if (is_blank run_id) empty_run_id
    initial (record { run_id = run_id; events = []; event_ids = [] }) initial_events

  -- What `append` does before it writes.
  unfoldable pub prepare : RunEventAppendInput → InMemoryLedger → Checked Event
  prepare input ledger = do
    throw_if (has ledger.event_ids input.event_id) duplicate_event_id
    throw_if (dangling ledger.event_ids input.causation_id) invalid_causation_id
    prepare_run_event host input ledger.run_id (last_sequence ledger + 1)

  -- The write, and the clone that is returned; an error keeps what was written before it.
  abbrev pub write : InMemoryLedger → Checked Event → Checked Event × InMemoryLedger
  write ledger (ok event) = (clone_run_event host event, push ledger event)
  write ledger (err e) = (err e, ledger)

  unfoldable pub append : RunEventAppendInput → InMemoryLedger → Checked Event × InMemoryLedger
  unfolding prepare
  append input ledger = write ledger (prepare input ledger)

  unfoldable pub events : InMemoryLedger → Checked (List Event)
  events ledger = clone_run_events host ledger.events

  unfoldable pub replay : InMemoryLedger → Checked (List Event)
  replay ledger = order_and_validate_run_events host ledger.events (some ledger.run_id)
