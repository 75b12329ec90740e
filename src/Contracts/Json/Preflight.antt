-- ===== src/Contracts/Json/Preflight.antt =====
-- packages/protocol/src/effects.ts: the objects as JSON values, with their fields in the order of their schemas.
use amca_core.Common.{String}
use amca_core.Protocol.Effects.{side_effect_class_name}
use amca_core.Protocol.Json.{Fields, str, obj, end, field}
use amca_core.Protocol.Preflight.{
  WritePreflightCandidate, quarantine_reason_name, block_reason_name, WriteQuarantineState, Verdict,
  WritePreflightDecision, allowed, denied, quarantined,
}
use amca_core.Protocol.Proofs.{quarantined}
use amca_core.Contracts.Json.{optional}

unfoldable pub write_preflight_candidate_fields : WritePreflightCandidate → Fields
write_preflight_candidate_fields x = field "kind" (str "write_preflight_candidate") (
    field "preflightId" (str x.preflight_id) (
      field "runId" (str x.run_id) (
        field "commandId" (str x.command_id) (
          field "capabilityId" (str x.capability_id) (
            field "toolId" (str x.tool_id) (
              field "sideEffectClass" (str (side_effect_class_name x.side_effect_class)) (
                field "argsHash" (str x.args_hash) (
                  field "requestedAt" (str x.requested_at) (
                    optional str "idempotencyKey" x.idempotency_key
                      (optional obj "metadata" x.metadata end))))))))))

unfoldable pub write_quarantine_state_fields : WriteQuarantineState → Fields
write_quarantine_state_fields x = field "kind" (str "write_quarantine_state") (
    field "quarantineId" (str x.quarantine_id) (
      field "runId" (str x.run_id) (
        field "preflightId" (str x.preflight_id) (
          field "commandId" (str x.command_id) (
            field "capabilityId" (str x.capability_id) (
              field "toolId" (str x.tool_id) (
                field "sideEffectClass" (str (side_effect_class_name x.side_effect_class)) (
                  field "status" (str "quarantined") (
                    field "reason" (str (quarantine_reason_name x.reason)) (
                      field "message" (str x.message) (
                        field "quarantinedAt" (str x.quarantined_at) (
                          optional str "idempotencyKey" x.idempotency_key
                            (optional obj "metadata" x.metadata end)))))))))))))

-- The fields from the kind to the side effect class, which the three decisions share.
abbrev decision_head : String → WritePreflightDecision → Fields → Fields
decision_head status x rest = field "kind" (str "write_preflight_decision") (
    field "status" (str status) (
      field "runId" (str x.run_id) (
        field "preflightId" (str x.preflight_id) (
          field "commandId" (str x.command_id) (
            field "capabilityId" (str x.capability_id) (
              field "toolId" (str x.tool_id) (
                field "sideEffectClass" (str (side_effect_class_name x.side_effect_class))
                  rest)))))))

abbrev decision_rest : WritePreflightDecision → Verdict → Fields
decision_rest x (allowed approval_id) = decision_head "allowed" x (
    optional str "idempotencyKey" x.idempotency_key
      (field "decidedAt" (str x.decided_at) (optional str "approvalId" approval_id end)))
decision_rest x (denied reason message) = decision_head "denied" x (
    field "reason" (str (block_reason_name reason)) (
      field "message" (str message) (
        field "decidedAt" (str x.decided_at)
          (optional str "idempotencyKey" x.idempotency_key end))))
decision_rest x (quarantined state) = decision_head "quarantined" x (
    field "quarantine" (obj (write_quarantine_state_fields state))
      (field "decidedAt" (str x.decided_at) (optional str "idempotencyKey" x.idempotency_key end)))

unfoldable pub write_preflight_decision_fields : WritePreflightDecision → Fields
write_preflight_decision_fields x = decision_rest x x.verdict
