-- ===== src/Contracts/Schemas/Preflight.antt =====
-- packages/contracts/src/schemas.ts: the schemas of packages/protocol/src/effects.ts, on values of their types.
use amca_core.Common.{String, Bool, ◌&&◌, Option}
use amca_core.Protocol.Preflight.{
  WritePreflightCandidate, WriteQuarantineState, Verdict, WritePreflightDecision, allowed, denied,
  quarantined,
}
use amca_core.Protocol.Proofs.{quarantined}
use amca_core.Protocol.Host.{Host}
use amca_core.Contracts.Canonical.Copies.{is_json_fields}
use amca_core.Contracts.Schemas.{non_empty, optionally, required, is_sha256_hash, is_write_class}

module _ (host : Host) where
  unfoldable pub write_preflight_candidate_schema : WritePreflightCandidate → Bool
  write_preflight_candidate_schema x =
      non_empty x.preflight_id
      && (non_empty x.run_id
          && (non_empty x.command_id
              && (non_empty x.capability_id
                  && (non_empty x.tool_id
                      && (is_write_class x.side_effect_class
                          && (is_sha256_hash x.args_hash
                              && (host.is_iso_datetime x.requested_at
                                  && (optionally non_empty x.idempotency_key
                                      && (optionally is_json_fields x.metadata)))))))))

  unfoldable pub write_quarantine_state_schema : WriteQuarantineState → Bool
  write_quarantine_state_schema x =
      non_empty x.quarantine_id
      && (non_empty x.run_id
          && (non_empty x.preflight_id
              && (non_empty x.command_id
                  && (non_empty x.capability_id
                      && (non_empty x.tool_id
                          && (is_write_class x.side_effect_class
                              && (non_empty x.message
                                  && (host.is_iso_datetime x.quarantined_at
                                      && (optionally non_empty x.idempotency_key
                                          && (optionally is_json_fields x.metadata))))))))))

  unfoldable pub verdict_schema : Option String → Verdict → Bool
  verdict_schema idempotency_key (allowed approval_id) =
      required non_empty idempotency_key && optionally non_empty approval_id
  verdict_schema idempotency_key (denied reason message) =
      non_empty message && optionally non_empty idempotency_key
  verdict_schema idempotency_key (quarantined state) =
      write_quarantine_state_schema state && optionally non_empty idempotency_key

  unfoldable pub write_preflight_decision_schema : WritePreflightDecision → Bool
  unfolding verdict_schema
  write_preflight_decision_schema x =
      non_empty x.run_id
      && (non_empty x.preflight_id
          && (non_empty x.command_id
              && (non_empty x.capability_id
                  && (non_empty x.tool_id
                      && (is_write_class x.side_effect_class
                          && (host.is_iso_datetime x.decided_at
                              && verdict_schema x.idempotency_key x.verdict))))))
