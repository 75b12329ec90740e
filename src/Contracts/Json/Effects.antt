-- ===== src/Contracts/Json/Effects.antt =====
-- packages/protocol/src/effects.ts: the objects as JSON values, with their fields in the order of their schemas.
use amca_core.Common.{}
use amca_core.Protocol.Effects.{
  side_effect_class_name, effect_status_name, EffectRequest, EffectReceipt,
}
use amca_core.Protocol.Json.{Fields, str, obj, end, field}
use amca_core.Contracts.Json.{optional, list_json}
use amca_core.Contracts.Json.Evidence.{evidence_ref_fields}

unfoldable pub effect_request_fields : EffectRequest → Fields
effect_request_fields x = field "effectId" (str x.effect_id) (
    field "commandId" (str x.command_id) (
      field "runId" (str x.run_id) (
        field "capabilityId" (str x.capability_id) (
          field "toolId" (str x.tool_id) (
            field "args" (obj x.args) (
              field "sideEffectClass" (str (side_effect_class_name x.side_effect_class)) (
                field "requestedAt" (str x.requested_at)
                  (optional str "idempotencyKey" x.idempotency_key end))))))))

unfoldable pub effect_receipt_fields : EffectReceipt → Fields
effect_receipt_fields x = field "receiptId" (str x.receipt_id) (
    field "effectId" (str x.effect_id) (
      field "runId" (str x.run_id) (
        field "capabilityId" (str x.capability_id) (
          field "receiptType" (str x.receipt_type) (
            field "status" (str (effect_status_name x.status)) (
              field "payload" (obj x.payload) (
                field "payloadHash" (str x.payload_hash) (
                  field "evidence" (list_json (λ y. obj (evidence_ref_fields y)) x.evidence) (
                    field "observedAt" (str x.observed_at)
                      (optional str "externalRef" x.external_ref end))))))))))
