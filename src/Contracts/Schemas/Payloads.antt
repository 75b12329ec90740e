-- ===== src/Contracts/Schemas/Payloads.antt =====
-- packages/contracts/src/schemas.ts: the schemas of packages/protocol/src/events.ts, on values of their types.
use amca_core.Common.{Bool, false, ◌&&◌}
use amca_core.Common.Equality.{◌==◌, string_has_eq}
use amca_core.Protocol.Events.{RunEvent}
use amca_core.Protocol.Json.{Value}
use amca_core.Protocol.Payloads.{
  RunEventPayload, event_type, run_started, proposal_received, effect_requested,
  write_preflight_requested, write_preflight_decided, write_quarantined, mutation_committed,
  approval_requested, approval_granted, approval_denied, approval_expired, effect_receipt_recorded,
  external_state_observed, proof_generated, mismatch_detected, release_decided, final_released,
}
use amca_core.Protocol.Proofs.{ReleaseDecision, released}
use amca_core.Protocol.Host.{Host}
use amca_core.Contracts.Canonical.Copies.{is_json_fields}
use amca_core.Contracts.Schemas.{non_empty, optionally, is_sha256_hash, is_safe_number}
use amca_core.Contracts.Schemas.Evidence.{external_state_observation_schema}
use amca_core.Contracts.Schemas.Effects.{effect_request_schema, effect_receipt_schema}
use amca_core.Contracts.Schemas.Preflight.{
  write_preflight_candidate_schema, write_quarantine_state_schema, write_preflight_decision_schema,
}
use amca_core.Contracts.Schemas.Claims.{final_candidate_schema}
use amca_core.Contracts.Schemas.Mutations.{mutation_committed_schema, proposal_schema}
use amca_core.Contracts.Schemas.Approvals.{
  approval_request_schema, approval_grant_schema, approval_denial_schema, approval_expiry_schema,
}
use amca_core.Contracts.Schemas.Proofs.{
  mismatch_schema, proof_object_schema, release_decision_schema,
}

module _ (host : Host) where
  -- ReleasedDecisionSchema
  abbrev released_decision_schema : ReleaseDecision → Bool
  released_decision_schema (released ids message) =
      (release_decision_schema host) (released ids message)
  released_decision_schema _ = false

  unfoldable pub payload_schema : RunEventPayload → Bool
  payload_schema (run_started run_id profile metadata) =
      non_empty run_id && (optionally non_empty profile && optionally is_json_fields metadata)
  payload_schema (proposal_received x) = (proposal_schema host) x
  payload_schema (effect_requested x) = (effect_request_schema host) x
  payload_schema (write_preflight_requested x) = (write_preflight_candidate_schema host) x
  payload_schema (write_preflight_decided x) = (write_preflight_decision_schema host) x
  payload_schema (write_quarantined x) = (write_quarantine_state_schema host) x
  payload_schema (mutation_committed x) = (mutation_committed_schema host) x
  payload_schema (approval_requested x) = (approval_request_schema host) x
  payload_schema (approval_granted x) = (approval_grant_schema host) x
  payload_schema (approval_denied x) = (approval_denial_schema host) x
  payload_schema (approval_expired x) = (approval_expiry_schema host) x
  payload_schema (effect_receipt_recorded x) = (effect_receipt_schema host) x
  payload_schema (external_state_observed x) = (external_state_observation_schema host) x
  payload_schema (proof_generated x) = (proof_object_schema host) x
  payload_schema (mismatch_detected x) = (mismatch_schema host) x
  payload_schema (release_decided x) = (release_decision_schema host) x
  payload_schema (final_released decision candidate) =
      released_decision_schema decision && (final_candidate_schema host) candidate

  -- RunEventSchema, on an event whose payload is the JSON of this one in some order of the keys, as the
  -- kernel makes it. The type of the event is the one of its payload.
  unfoldable pub run_event_schema : RunEvent Value → RunEventPayload → Bool
  run_event_schema event payload =
      non_empty event.event_id
      && (non_empty event.run_id
          && (is_safe_number event.sequence
              && (event.type == event_type payload
                  && (is_sha256_hash event.payload_hash
                      && (optionally non_empty event.causation_id
                          && (optionally non_empty event.correlation_id
                              && (host.is_iso_datetime event.occurred_at
                                  && payload_schema payload)))))))
