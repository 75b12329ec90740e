-- ===== src/Protocol/Payloads.antt =====
-- packages/protocol/src/events.ts: the payload of an event, which fixes its type.
use amca_core.Common.{String, Option}
use amca_core.Protocol.Json.{Fields}
use amca_core.Protocol.Evidence.{ExternalStateObservation}
use amca_core.Protocol.Claims.{FinalCandidate}
use amca_core.Protocol.Proofs.{ProofObject, Mismatch, ReleaseDecision}
use amca_core.Protocol.Effects.{EffectRequest, EffectReceipt}
use amca_core.Protocol.Preflight.{
  WritePreflightCandidate, WritePreflightDecision, WriteQuarantineState,
}
use amca_core.Protocol.Mutations.{Proposal, MutationCommitted}
use amca_core.Protocol.Approvals.{ApprovalRequest, ApprovalGrant, ApprovalDenial, ApprovalExpiry}

pub data RunEventPayload : Type 0 where
  run_started : String → Option String → Option Fields → RunEventPayload
  proposal_received : Proposal → RunEventPayload
  effect_requested : EffectRequest → RunEventPayload
  write_preflight_requested : WritePreflightCandidate → RunEventPayload
  write_preflight_decided : WritePreflightDecision → RunEventPayload
  write_quarantined : WriteQuarantineState → RunEventPayload
  mutation_committed : MutationCommitted → RunEventPayload
  approval_requested : ApprovalRequest → RunEventPayload
  approval_granted : ApprovalGrant → RunEventPayload
  approval_denied : ApprovalDenial → RunEventPayload
  approval_expired : ApprovalExpiry → RunEventPayload
  effect_receipt_recorded : EffectReceipt → RunEventPayload
  external_state_observed : ExternalStateObservation → RunEventPayload
  proof_generated : ProofObject → RunEventPayload
  mismatch_detected : Mismatch → RunEventPayload
  release_decided : ReleaseDecision → RunEventPayload
  final_released : ReleaseDecision → FinalCandidate → RunEventPayload

-- The type of the event that has the payload.
abbrev pub event_type : RunEventPayload → String
event_type (run_started run_id profile metadata) = "RunStarted"
event_type (proposal_received x) = "ProposalReceived"
event_type (effect_requested x) = "EffectRequested"
event_type (write_preflight_requested x) = "WritePreflightRequested"
event_type (write_preflight_decided x) = "WritePreflightDecided"
event_type (write_quarantined x) = "WriteQuarantined"
event_type (mutation_committed x) = "MutationCommitted"
event_type (approval_requested x) = "ApprovalRequested"
event_type (approval_granted x) = "ApprovalGranted"
event_type (approval_denied x) = "ApprovalDenied"
event_type (approval_expired x) = "ApprovalExpired"
event_type (effect_receipt_recorded x) = "EffectReceiptRecorded"
event_type (external_state_observed x) = "ExternalStateObserved"
event_type (proof_generated x) = "ProofGenerated"
event_type (mismatch_detected x) = "MismatchDetected"
event_type (release_decided x) = "ReleaseDecided"
event_type (final_released x y) = "FinalReleased"
