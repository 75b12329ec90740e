-- ===== src/Protocol/Events.antt =====
-- packages/protocol/src/events.ts: one event of a run, over the type of its payload. The ledgers
-- carry the type of an event as text, as the stored events do.
use amca_core.Common.{String, Option}
use amca_core.Protocol.Json.{Number}

pub record RunEvent (P : Type 0) : Type 0 where
  pub event_id : String
  pub run_id : String
  pub sequence : Number
  pub type : String
  pub payload : P
  pub payload_hash : String
  pub causation_id : Option String
  pub correlation_id : Option String
  pub occurred_at : String
