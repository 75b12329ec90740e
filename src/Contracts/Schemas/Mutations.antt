-- ===== src/Contracts/Schemas/Mutations.antt =====
-- packages/contracts/src/schemas.ts: the schemas of packages/protocol/src/mutations.ts, on values of their types.
use amca_core.Common.{◌+◌, Bool, ◌&&◌, all, nat_eq}
use amca_core.Protocol.Mutations.{
  MutationOperation, MutationProvenance, MutationCommandRequest, MutationCommitted,
  ToolCommandRequest, Proposal, set, merge, delete, tool_command, mutation_command, final_candidate,
}
use amca_core.Protocol.Host.{Host}
use amca_core.Contracts.Canonical.Copies.{is_json, is_json_fields}
use amca_core.Contracts.Schemas.{
  non_empty, optionally, is_sha256_hash, is_safe_integer, is_safe_positive,
}
use amca_core.Contracts.Schemas.Evidence.{evidence_ref_schema}
use amca_core.Contracts.Schemas.Claims.{final_candidate_schema}

module _ (host : Host) where
  unfoldable pub mutation_operation_schema : MutationOperation → Bool
  mutation_operation_schema (set path value) = non_empty path && is_json value
  mutation_operation_schema (merge path value) = non_empty path && is_json_fields value
  mutation_operation_schema (delete path) = non_empty path

  unfoldable pub mutation_provenance_schema : MutationProvenance → Bool
  mutation_provenance_schema x =
      non_empty x.source_event_id
      && (non_empty x.reason
          && (optionally non_empty x.actor_id && (optionally is_json_fields x.metadata)))

  unfoldable pub mutation_command_request_schema : MutationCommandRequest → Bool
  mutation_command_request_schema x =
      non_empty x.command_id
      && (non_empty x.mutation_id
          && (non_empty x.run_id
              && (non_empty x.state_ref
                  && (mutation_operation_schema x.operation
                      && (is_safe_integer x.expected_revision
                          && (mutation_provenance_schema x.provenance
                              && (host.is_iso_datetime x.requested_at
                                  && (is_sha256_hash x.payload_hash
                                      && (optionally is_json_fields x.metadata)))))))))

  unfoldable pub mutation_committed_schema : MutationCommitted → Bool
  mutation_committed_schema x =
      non_empty x.mutation_id
      && (non_empty x.command_id
          && (non_empty x.run_id
              && (non_empty x.state_ref
                  && (is_safe_integer x.previous_revision
                      && (is_safe_positive x.new_revision
                          && (mutation_operation_schema x.operation
                              && (mutation_provenance_schema x.provenance
                                  && (host.is_iso_datetime x.committed_at
                                      && (is_sha256_hash x.payload_hash
                                          && (optionally is_json_fields x.metadata
                                              && (nat_eq x.new_revision
                                                  (x.previous_revision + 1))))))))))))

  unfoldable pub tool_command_request_schema : ToolCommandRequest → Bool
  tool_command_request_schema x =
      non_empty x.command_id
      && (non_empty x.run_id
          && (non_empty x.capability_id
              && (non_empty x.tool_id
                  && (is_json_fields x.args
                      && (optionally non_empty x.idempotency_key
                          && (optionally (all (evidence_ref_schema host)) x.required_evidence))))))

  unfoldable pub proposal_schema : Proposal → Bool
  proposal_schema (tool_command p) = tool_command_request_schema p
  proposal_schema (mutation_command p) = mutation_command_request_schema p
  proposal_schema (final_candidate p) = (final_candidate_schema host) p
