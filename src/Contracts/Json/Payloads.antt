-- ===== src/Contracts/Json/Payloads.antt =====
-- packages/protocol/src/events.ts: the objects as JSON values, with their fields in the order of their schemas.
use amca_core.Common.{}
use amca_core.Protocol.Json.{Fields, str, obj, end, field}
use amca_core.Protocol.Payloads.{
  RunEventPayload, run_started, proposal_received, effect_requested, write_preflight_requested,
  write_preflight_decided, write_quarantined, mutation_committed, approval_requested,
  approval_granted, approval_denied, approval_expired, effect_receipt_recorded,
  external_state_observed, proof_generated, mismatch_detected, release_decided, final_released,
}
use amca_core.Contracts.Json.{optional}
use amca_core.Contracts.Json.Evidence.{external_state_observation_fields}
use amca_core.Contracts.Json.Effects.{effect_request_fields, effect_receipt_fields}
use amca_core.Contracts.Json.Preflight.{
  write_preflight_candidate_fields, write_quarantine_state_fields, write_preflight_decision_fields,
}
use amca_core.Contracts.Json.Claims.{final_candidate_fields}
use amca_core.Contracts.Json.Mutations.{mutation_committed_fields, proposal_fields}
use amca_core.Contracts.Json.Approvals.{
  approval_request_fields, approval_grant_fields, approval_denial_fields, approval_expiry_fields,
}
use amca_core.Contracts.Json.Proofs.{mismatch_fields, proof_object_fields, release_decision_fields}

unfoldable pub payload_fields : RunEventPayload → Fields
payload_fields (run_started run_id profile metadata) =
    field "runId" (str run_id)
      (optional str "profile" profile (optional obj "metadata" metadata end))
payload_fields (proposal_received x) = field "proposal" (obj (proposal_fields x)) end
payload_fields (effect_requested x) = field "effectRequest" (obj (effect_request_fields x)) end
payload_fields (write_preflight_requested x) =
    field "candidate" (obj (write_preflight_candidate_fields x)) end
payload_fields (write_preflight_decided x) =
    field "decision" (obj (write_preflight_decision_fields x)) end
payload_fields (write_quarantined x) =
    field "quarantine" (obj (write_quarantine_state_fields x)) end
payload_fields (mutation_committed x) = field "mutation" (obj (mutation_committed_fields x)) end
payload_fields (approval_requested x) = field "request" (obj (approval_request_fields x)) end
payload_fields (approval_granted x) = field "grant" (obj (approval_grant_fields x)) end
payload_fields (approval_denied x) = field "denial" (obj (approval_denial_fields x)) end
payload_fields (approval_expired x) = field "expiry" (obj (approval_expiry_fields x)) end
payload_fields (effect_receipt_recorded x) = field "receipt" (obj (effect_receipt_fields x)) end
payload_fields (external_state_observed x) =
    field "observation" (obj (external_state_observation_fields x)) end
payload_fields (proof_generated x) = field "proof" (obj (proof_object_fields x)) end
payload_fields (mismatch_detected x) = field "mismatch" (obj (mismatch_fields x)) end
payload_fields (release_decided x) = field "decision" (obj (release_decision_fields x)) end
payload_fields (final_released decision candidate) =
    field "decision" (obj (release_decision_fields decision))
      (field "candidate" (obj (final_candidate_fields candidate)) end)
