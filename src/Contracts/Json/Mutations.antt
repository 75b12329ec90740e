-- ===== src/Contracts/Json/Mutations.antt =====
-- packages/protocol/src/mutations.ts: the objects as JSON values, with their fields in the order of their schemas.
use amca_core.Common.{}
use amca_core.Protocol.Effects.{side_effect_class_name}
use amca_core.Protocol.Json.{nat, Fields, num, str, obj, end, field}
use amca_core.Protocol.Mutations.{
  MutationOperation, provenance_kind_name, MutationProvenance, MutationCommandRequest,
  MutationCommitted, ToolCommandRequest, Proposal, set, merge, delete, tool_command,
  mutation_command, final_candidate,
}
use amca_core.Contracts.Json.{optional, list_json}
use amca_core.Contracts.Json.Evidence.{evidence_ref_fields}
use amca_core.Contracts.Json.Claims.{final_candidate_fields}

unfoldable pub mutation_operation_fields : MutationOperation → Fields
mutation_operation_fields (set path value) =
    field "kind" (str "set") (field "path" (str path) (field "value" value end))
mutation_operation_fields (merge path value) =
    field "kind" (str "merge") (field "path" (str path) (field "value" (obj value) end))
mutation_operation_fields (delete path) = field "kind" (str "delete") (field "path" (str path) end)

unfoldable pub mutation_provenance_fields : MutationProvenance → Fields
mutation_provenance_fields x = field "kind" (str (provenance_kind_name x.kind)) (
    field "sourceEventId" (str x.source_event_id) (
      field "reason" (str x.reason)
        (optional str "actorId" x.actor_id (optional obj "metadata" x.metadata end))))

unfoldable pub mutation_command_request_fields : MutationCommandRequest → Fields
mutation_command_request_fields x = field "kind" (str "mutation_command_request") (
    field "commandId" (str x.command_id) (
      field "mutationId" (str x.mutation_id) (
        field "runId" (str x.run_id) (
          field "target" (obj (field "stateRef" (str x.state_ref) end)) (
            field "operation" (obj (mutation_operation_fields x.operation)) (
              field "precondition"
                (obj (field "expectedRevision" (num (nat x.expected_revision)) end))
                (field "provenance" (obj (mutation_provenance_fields x.provenance)) (
                  field "requestedAt" (str x.requested_at) (
                    field "payloadHash" (str x.payload_hash)
                      (optional obj "metadata" x.metadata end))))))))))

unfoldable pub mutation_committed_fields : MutationCommitted → Fields
mutation_committed_fields x = field "kind" (str "mutation_committed") (
    field "mutationId" (str x.mutation_id) (
      field "commandId" (str x.command_id) (
        field "runId" (str x.run_id) (
          field "stateRef" (str x.state_ref) (
            field "previousRevision" (num (nat x.previous_revision)) (
              field "newRevision" (num (nat x.new_revision)) (
                field "operation" (obj (mutation_operation_fields x.operation)) (
                  field "provenance" (obj (mutation_provenance_fields x.provenance)) (
                    field "committedAt" (str x.committed_at) (
                      field "payloadHash" (str x.payload_hash)
                        (optional obj "metadata" x.metadata end)))))))))))

unfoldable pub tool_command_request_fields : ToolCommandRequest → Fields
tool_command_request_fields x = field "kind" (str "tool_command_request") (
    field "commandId" (str x.command_id) (
      field "runId" (str x.run_id) (
        field "capabilityId" (str x.capability_id) (
          field "toolId" (str x.tool_id) (
            field "args" (obj x.args) (
              field "sideEffectClass" (str (side_effect_class_name x.side_effect_class)) (
                optional str "idempotencyKey" x.idempotency_key (
                  optional (list_json (λ y. obj (evidence_ref_fields y))) "requiredEvidence"
                    x.required_evidence end))))))))

unfoldable pub proposal_fields : Proposal → Fields
proposal_fields (tool_command p) = tool_command_request_fields p
proposal_fields (mutation_command p) = mutation_command_request_fields p
proposal_fields (final_candidate p) = final_candidate_fields p
