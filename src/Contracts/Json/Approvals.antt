-- ===== src/Contracts/Json/Approvals.antt =====
-- packages/protocol/src/approvals.ts: the objects as JSON values, with their fields in the order of their schemas.
use amca_core.Common.{}
use amca_core.Protocol.Approvals.{
  ApprovalScope, ApprovalRequest, ApprovalGrant, ApprovalDenial, ApprovalExpiry, write_preflight,
  mutation,
}
use amca_core.Protocol.Claims.{criticality_name}
use amca_core.Protocol.Effects.{side_effect_class_name}
use amca_core.Protocol.Json.{Fields, str, obj, end, field}
use amca_core.Contracts.Json.{optional}

unfoldable pub approval_scope_fields : ApprovalScope → Fields
approval_scope_fields
      (write_preflight preflight_id command_id capability_id tool_id class idempotency_key) =
    field "kind" (str "write_preflight") (
      field "preflightId" (str preflight_id) (
        field "commandId" (str command_id) (
          field "capabilityId" (str capability_id) (
            field "toolId" (str tool_id) (
              field "sideEffectClass" (str (side_effect_class_name class))
                (optional str "idempotencyKey" idempotency_key end))))))
approval_scope_fields (mutation command_id mutation_id state_ref) = field "kind" (str "mutation") (
    field "commandId" (str command_id)
      (field "mutationId" (str mutation_id) (field "stateRef" (str state_ref) end)))

unfoldable pub approval_request_fields : ApprovalRequest → Fields
approval_request_fields x = field "kind" (str "approval_request") (
    field "approvalId" (str x.approval_id) (
      field "runId" (str x.run_id) (
        field "requestedBy" (str x.requested_by) (
          field "scope" (obj (approval_scope_fields x.scope)) (
            field "criticality" (str (criticality_name x.criticality)) (
              field "reason" (str x.reason) (
                field "requestedAt" (str x.requested_at) (
                  field "expiresAt" (str x.expires_at)
                    (optional obj "metadata" x.metadata end)))))))))

unfoldable pub approval_grant_fields : ApprovalGrant → Fields
approval_grant_fields x = field "kind" (str "approval_grant") (
    field "approvalId" (str x.approval_id) (
      field "runId" (str x.run_id) (
        field "approverId" (str x.approver_id) (
          field "scope" (obj (approval_scope_fields x.scope)) (
            field "grantedAt" (str x.granted_at)
              (field "expiresAt" (str x.expires_at) (optional obj "metadata" x.metadata end)))))))

unfoldable pub approval_denial_fields : ApprovalDenial → Fields
approval_denial_fields x = field "kind" (str "approval_denial") (
    field "approvalId" (str x.approval_id) (
      field "runId" (str x.run_id) (
        field "approverId" (str x.approver_id) (
          field "scope" (obj (approval_scope_fields x.scope)) (
            field "reason" (str x.reason)
              (field "deniedAt" (str x.denied_at) (optional obj "metadata" x.metadata end)))))))

unfoldable pub approval_expiry_fields : ApprovalExpiry → Fields
approval_expiry_fields x = field "kind" (str "approval_expiry") (
    field "approvalId" (str x.approval_id) (
      field "runId" (str x.run_id) (
        field "scope" (obj (approval_scope_fields x.scope)) (
          field "expiredAt" (str x.expired_at)
            (field "reason" (str "expired") (optional obj "metadata" x.metadata end))))))
