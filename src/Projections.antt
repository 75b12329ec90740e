-- ===== src/Projections.antt =====
-- packages/projections/src/run-projection.ts: the projection of a run's events. Values are immutable here,
-- so that cloneJson of a value is the value.
pub mod Lists
mod Tests
use amca_core.Common.{
  ℕ, ◌+◌, String, Bool, true, false, not, Option, none, some, List, [], ◌∷◌, ◌++◌, length, nat_eq,
  if◌then◌else◌,
}
use amca_core.Common.Equality.{◌==◌, string_has_eq}
use amca_core.Common.Outcome.{Result, ok, err, ◌>>=◌, ◌>>◌, throw_if}
use amca_core.Protocol.Json.{Value, Fields, obj, Number, number_eq, nat}
use amca_core.Protocol.Host.{Host}
use amca_core.Protocol.Events.{RunEvent}
use amca_core.Protocol.Evidence.{ExternalStateObservation}
use amca_core.Protocol.Effects.{EffectRequest, EffectReceipt}
use amca_core.Protocol.Claims.{FinalCandidate}
use amca_core.Protocol.Mutations.{Proposal, final_candidate}
use amca_core.Protocol.Proofs.{ProofObject, Mismatch, ReleaseDecision}
use amca_core.Protocol.Payloads.{
  RunEventPayload, run_started, proposal_received, effect_requested, effect_receipt_recorded,
  external_state_observed, proof_generated, mismatch_detected, release_decided, final_released,
}
use amca_core.Contracts.Canonical.{TypeError, canonical_hash}
use amca_core.Contracts.Json.Payloads.{payload_fields}
use amca_core.Contracts.Schemas.Payloads.{run_event_schema}
use amca_core.Ledger.Stream.{has, dangling}

pub data ProjectionErrorCode : Type 0 where
  duplicate_event_id empty_event_stream invalid_causation_id invalid_event_order :
      ProjectionErrorCode
  missing_run_started payload_hash_mismatch run_id_mismatch : ProjectionErrorCode

-- What a rebuild may throw: its own error, that of a schema, and that of canonical JSON.
pub data ProjectionError : Type 0 where
  projection_error : ProjectionErrorCode → ProjectionError
  contract_error : ProjectionError
  json_error : TypeError → ProjectionError

-- The event of a run with its payload as a value of the protocol.
abbrev pub TypedRunEvent : Type 0
TypedRunEvent = RunEvent RunEventPayload

-- Its payload as JSON.
abbrev pub payload_value : TypedRunEvent → Value
payload_value e = obj (payload_fields e.payload)

-- The event as JSON, which the schema parses.
unfoldable pub json_event : TypedRunEvent → RunEvent Value
json_event e = record {
  event_id = e.event_id;
  run_id = e.run_id;
  sequence = e.sequence;
  type = e.type;
  payload = payload_value e;
  payload_hash = e.payload_hash;
  causation_id = e.causation_id;
  correlation_id = e.correlation_id;
  occurred_at = e.occurred_at;
}

pub data RunProjectionStatus : Type 0 where
  started running blocked needs_repair quarantined released : RunProjectionStatus

pub record RunProjectionSummary : Type 0 where
  pub run_id : String
  pub status : RunProjectionStatus
  pub event_count : ℕ
  pub last_sequence : Number
  pub started_at : String
  pub last_event_at : String
  pub final_released : Bool
  pub profile : Option String
  pub metadata : Option Fields

pub record RunProjection : Type 0 where
  pub run_id : String
  pub summary : RunProjectionSummary
  pub event_ids : List String
  pub proposals : List Proposal
  pub effect_requests : List EffectRequest
  pub receipts : List EffectReceipt
  pub observations : List ExternalStateObservation
  pub final_candidates : List FinalCandidate
  pub proofs : List ProofObject
  pub mismatches : List Mismatch
  pub release_decisions : List ReleaseDecision
  pub final_released : Bool
  pub final_candidate : Option FinalCandidate
  pub proof : Option ProofObject
  pub release_decision : Option ReleaseDecision
  pub final_released_candidate : Option FinalCandidate

pub record MutableRunProjection : Type 0 where
  pub run_id : String
  pub event_ids : List String
  pub proposals : List Proposal
  pub effect_requests : List EffectRequest
  pub receipts : List EffectReceipt
  pub observations : List ExternalStateObservation
  pub final_candidates : List FinalCandidate
  pub proofs : List ProofObject
  pub mismatches : List Mismatch
  pub release_decisions : List ReleaseDecision
  pub started_at : String
  pub profile : Option String
  pub metadata : Option Fields
  pub last_sequence : Number
  pub last_event_at : String
  pub final_released : Bool
  pub final_released_candidate : Option FinalCandidate

-- The constructor.
unfoldable pub initial_projection :
    String → Option String → Option Fields → TypedRunEvent → MutableRunProjection
initial_projection run_id profile metadata event = record {
  run_id = run_id;
  event_ids = event.event_id ∷ [];
  proposals = [];
  effect_requests = [];
  receipts = [];
  observations = [];
  final_candidates = [];
  proofs = [];
  mismatches = [];
  release_decisions = [];
  started_at = event.occurred_at;
  profile = profile;
  metadata = metadata;
  last_sequence = event.sequence;
  last_event_at = event.occurred_at;
  final_released = false;
  final_released_candidate = none;
}

abbrev push_candidate : Proposal → MutableRunProjection → MutableRunProjection
push_candidate (final_candidate candidate) p = record p {
  final_candidates = p.final_candidates ++ candidate ∷ [];
}
push_candidate _ p = p

-- The switch on the type of the event.
unfoldable pub apply_payload : RunEventPayload → MutableRunProjection → MutableRunProjection
apply_payload (proposal_received x) p =
    push_candidate x (record p { proposals = p.proposals ++ x ∷ [] })
apply_payload (effect_requested x) p = record p { effect_requests = p.effect_requests ++ x ∷ [] }
apply_payload (effect_receipt_recorded x) p = record p { receipts = p.receipts ++ x ∷ [] }
apply_payload (external_state_observed x) p = record p { observations = p.observations ++ x ∷ [] }
apply_payload (proof_generated x) p = record p { proofs = p.proofs ++ x ∷ [] }
apply_payload (mismatch_detected x) p = record p { mismatches = p.mismatches ++ x ∷ [] }
apply_payload (release_decided x) p = record p { release_decisions = p.release_decisions ++ x ∷ [] }
apply_payload (final_released decision candidate) p = record p {
  final_released = true;
  final_released_candidate = some candidate;
}
apply_payload _ p = p

unfoldable pub apply : TypedRunEvent → MutableRunProjection → MutableRunProjection
unfolding apply_payload
apply e p = apply_payload e.payload (record p {
  event_ids = p.event_ids ++ e.event_id ∷ [];
  last_sequence = e.sequence;
  last_event_at = e.occurred_at;
})

abbrev pub apply_all : List TypedRunEvent → MutableRunProjection → MutableRunProjection
apply_all [] p = p
apply_all (e ∷ es) p = apply_all es (apply e p)

-- `values.at(-1)`
abbrev pub last {ℓ} : {A : Type ℓ} → List A → Option A
last [] = none
last (x ∷ []) = some x
last (x ∷ y ∷ xs) = last (y ∷ xs)

abbrev status_of : ReleaseDecision → RunProjectionStatus
status_of (ReleaseDecision.released ids message) = RunProjectionStatus.released
status_of (ReleaseDecision.blocked ids hints) = RunProjectionStatus.blocked
status_of (ReleaseDecision.repair ids instructions) = RunProjectionStatus.needs_repair
status_of (ReleaseDecision.quarantined ids reason) = RunProjectionStatus.quarantined

unfoldable pub running_status : MutableRunProjection → RunProjectionStatus
running_status p = if nat_eq (length p.event_ids) 1 then started else running

abbrev pub projection_status : MutableRunProjection → Option ReleaseDecision → RunProjectionStatus
projection_status p none = running_status p
projection_status p (some decision) = status_of decision

unfoldable pub summary : MutableRunProjection → Option ReleaseDecision → RunProjectionSummary
unfolding running_status
summary p release_decision = record {
  run_id = p.run_id;
  status = projection_status p release_decision;
  event_count = length p.event_ids;
  last_sequence = p.last_sequence;
  started_at = p.started_at;
  last_event_at = p.last_event_at;
  final_released = p.final_released;
  profile = p.profile;
  metadata = p.metadata;
}

unfoldable pub to_projection : MutableRunProjection → RunProjection
unfolding summary
to_projection p = record {
  run_id = p.run_id;
  summary = summary p (last p.release_decisions);
  event_ids = p.event_ids;
  proposals = p.proposals;
  effect_requests = p.effect_requests;
  receipts = p.receipts;
  observations = p.observations;
  final_candidates = p.final_candidates;
  proofs = p.proofs;
  mismatches = p.mismatches;
  release_decisions = p.release_decisions;
  final_released = p.final_released;
  final_candidate = last p.final_candidates;
  proof = last p.proofs;
  release_decision = last p.release_decisions;
  final_released_candidate = p.final_released_candidate;
}

abbrev pub Checked : Type 0 → Type 0
Checked A = Result ProjectionError A

abbrev hash_or_error : Result TypeError String → Checked String
hash_or_error (ok hash) = ok hash
hash_or_error (err e) = err (json_error e)

module _ (host : Host) where
  -- The checks on the event at an index, behind the ids seen.
  unfoldable pub check_accepted : String → ℕ → List String → TypedRunEvent → Checked (Unit {0})
  unfolding json_event
  check_accepted run_id index seen_event_ids e = do
    throw_if (not (run_event_schema host (json_event e) e.payload)) contract_error
    throw_if (not (e.run_id == run_id)) (projection_error run_id_mismatch)
    throw_if (not (number_eq e.sequence (nat (index + 1)))) (projection_error invalid_event_order)
    throw_if (has seen_event_ids e.event_id) (projection_error duplicate_event_id)
    payload_hash ← hash_or_error (canonical_hash host (payload_value e))
    throw_if (not (e.payload_hash == payload_hash)) (projection_error payload_hash_mismatch)
    throw_if (dangling seen_event_ids e.causation_id) (projection_error invalid_causation_id)

  abbrev pub check_all :
      String → ℕ → List String → List TypedRunEvent → Checked (List TypedRunEvent)
  check_all run_id index seen_event_ids [] = ok []
  check_all run_id index seen_event_ids (e ∷ es) = do
    check_accepted run_id index seen_event_ids e
    rest ← check_all run_id (index + 1) (seen_event_ids ++ e.event_id ∷ []) es
    ok (e ∷ rest)

  unfoldable pub validate_accepted_event_sequence :
      List TypedRunEvent → Checked (List TypedRunEvent)
  unfolding check_accepted
  validate_accepted_event_sequence [] = ok []
  validate_accepted_event_sequence (e ∷ es) = check_all e.run_id 0 [] (e ∷ es)

  abbrev pub from_started :
      TypedRunEvent → RunEventPayload → List TypedRunEvent → Checked RunProjection
  from_started event (run_started run_id profile metadata) rest =
      ok (to_projection (apply_all rest (initial_projection run_id profile metadata event)))
  from_started event _ rest = err (projection_error missing_run_started)

  abbrev pub rebuild_from : List TypedRunEvent → Checked RunProjection
  rebuild_from [] = err (projection_error empty_event_stream)
  rebuild_from (e ∷ es) = from_started e e.payload es

  unfoldable pub rebuild_run_projection : List TypedRunEvent → Checked RunProjection
  unfolding to_projection apply initial_projection validate_accepted_event_sequence
  rebuild_run_projection events = do
    ordered_events ← validate_accepted_event_sequence events
    rebuild_from ordered_events
