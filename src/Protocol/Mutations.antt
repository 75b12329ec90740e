-- ===== src/Protocol/Mutations.antt =====
-- packages/protocol/src/mutations.ts and proposals.ts
use amca_core.Common.{ℕ, Option, String, List}
use amca_core.Protocol.Json.{Value, Fields}
use amca_core.Protocol.Effects.{SideEffectClass}
use amca_core.Protocol.Evidence.{EvidenceRef}
use amca_core.Protocol.Claims.{FinalCandidate}

pub data MutationOperation : Type 0 where
  set : String → Value → MutationOperation
  merge : String → Fields → MutationOperation
  delete : String → MutationOperation

pub data MutationProvenanceKind : Type 0 where
  effect_receipt external_observation : MutationProvenanceKind
  human_input system_policy : MutationProvenanceKind

-- The text of the constant.
abbrev pub provenance_kind_name : MutationProvenanceKind → String
provenance_kind_name MutationProvenanceKind.effect_receipt = "effect_receipt"
provenance_kind_name MutationProvenanceKind.external_observation = "external_observation"
provenance_kind_name MutationProvenanceKind.human_input = "human_input"
provenance_kind_name MutationProvenanceKind.system_policy = "system_policy"

pub record MutationProvenance : Type 0 where
  pub kind : MutationProvenanceKind
  pub source_event_id : String
  pub reason : String
  pub actor_id : Option String
  pub metadata : Option Fields

-- `stateRef` is that of `target`, `expectedRevision` that of `precondition`, a natural number by its
-- schema.
pub record MutationCommandRequest : Type 0 where
  pub command_id : String
  pub mutation_id : String
  pub run_id : String
  pub state_ref : String
  pub operation : MutationOperation
  pub expected_revision : ℕ
  pub provenance : MutationProvenance
  pub requested_at : String
  pub payload_hash : String
  pub metadata : Option Fields

pub record MutationCommitted : Type 0 where
  pub mutation_id : String
  pub command_id : String
  pub run_id : String
  pub state_ref : String
  pub previous_revision : ℕ
  pub new_revision : ℕ
  pub operation : MutationOperation
  pub provenance : MutationProvenance
  pub committed_at : String
  pub payload_hash : String
  pub metadata : Option Fields

pub record ToolCommandRequest : Type 0 where
  pub command_id : String
  pub run_id : String
  pub capability_id : String
  pub tool_id : String
  pub args : Fields
  pub side_effect_class : SideEffectClass
  pub idempotency_key : Option String
  pub required_evidence : Option (List EvidenceRef)

pub data Proposal : Type 0 where
  tool_command : ToolCommandRequest → Proposal
  mutation_command : MutationCommandRequest → Proposal
  final_candidate : FinalCandidate → Proposal
