-- ===== src/Contracts/Schemas/Approvals.antt =====
-- packages/contracts/src/schemas.ts: the schemas of packages/protocol/src/approvals.ts, on values of their types.
use amca_core.Common.{Bool, ◌&&◌}
use amca_core.Protocol.Approvals.{
  ApprovalScope, ApprovalRequest, ApprovalGrant, ApprovalDenial, ApprovalExpiry, write_preflight,
  mutation,
}
use amca_core.Protocol.Host.{Host}
use amca_core.Contracts.Canonical.Copies.{is_json_fields}
use amca_core.Contracts.Schemas.{non_empty, optionally, is_write_class, date_le}

module _ (host : Host) where
  unfoldable pub approval_scope_schema : ApprovalScope → Bool
  approval_scope_schema
        (write_preflight preflight_id command_id capability_id tool_id class idempotency_key) =
      non_empty preflight_id
      && (non_empty command_id
          && (non_empty capability_id
              && (non_empty tool_id
                  && (is_write_class class && optionally non_empty idempotency_key))))
  approval_scope_schema (mutation command_id mutation_id state_ref) =
      non_empty command_id && (non_empty mutation_id && non_empty state_ref)

  unfoldable pub approval_request_schema : ApprovalRequest → Bool
  approval_request_schema x =
      non_empty x.approval_id
      && (non_empty x.run_id
          && (non_empty x.requested_by
              && (approval_scope_schema x.scope
                  && (non_empty x.reason
                      && (host.is_iso_datetime x.requested_at
                          && (host.is_iso_datetime x.expires_at
                              && (optionally is_json_fields x.metadata
                                  && (date_le (host.date_parse x.requested_at)
                                      (host.date_parse x.expires_at)))))))))

  unfoldable pub approval_grant_schema : ApprovalGrant → Bool
  approval_grant_schema x =
      non_empty x.approval_id
      && (non_empty x.run_id
          && (non_empty x.approver_id
              && (approval_scope_schema x.scope
                  && (host.is_iso_datetime x.granted_at
                      && (host.is_iso_datetime x.expires_at
                          && (optionally is_json_fields x.metadata
                              && (date_le (host.date_parse x.granted_at)
                                  (host.date_parse x.expires_at))))))))

  unfoldable pub approval_denial_schema : ApprovalDenial → Bool
  approval_denial_schema x =
      non_empty x.approval_id
      && (non_empty x.run_id
          && (non_empty x.approver_id
              && (approval_scope_schema x.scope
                  && (non_empty x.reason
                      && (host.is_iso_datetime x.denied_at
                          && (optionally is_json_fields x.metadata))))))

  unfoldable pub approval_expiry_schema : ApprovalExpiry → Bool
  approval_expiry_schema x =
      non_empty x.approval_id
      && (non_empty x.run_id
          && (approval_scope_schema x.scope
              && (host.is_iso_datetime x.expired_at && (optionally is_json_fields x.metadata))))
