-- ===== src/Contracts/Schemas/Effects.antt =====
-- packages/contracts/src/schemas.ts: the schemas of packages/protocol/src/effects.ts, on values of their types.
use amca_core.Common.{Bool, ◌&&◌, all}
use amca_core.Protocol.Effects.{EffectRequest, EffectReceipt}
use amca_core.Protocol.Host.{Host}
use amca_core.Contracts.Canonical.Copies.{is_json_fields}
use amca_core.Contracts.Schemas.{non_empty, optionally, is_sha256_hash}
use amca_core.Contracts.Schemas.Evidence.{evidence_ref_schema}

module _ (host : Host) where
  unfoldable pub effect_request_schema : EffectRequest → Bool
  effect_request_schema x =
      non_empty x.effect_id
      && (non_empty x.command_id
          && (non_empty x.run_id
              && (non_empty x.capability_id
                  && (non_empty x.tool_id
                      && (is_json_fields x.args
                          && (host.is_iso_datetime x.requested_at
                              && (optionally non_empty x.idempotency_key)))))))

  unfoldable pub effect_receipt_schema : EffectReceipt → Bool
  effect_receipt_schema x =
      non_empty x.receipt_id
      && (non_empty x.effect_id
          && (non_empty x.run_id
              && (non_empty x.capability_id
                  && (non_empty x.receipt_type
                      && (is_json_fields x.payload
                          && (is_sha256_hash x.payload_hash
                              && (all (evidence_ref_schema host) x.evidence
                                  && (host.is_iso_datetime x.observed_at
                                      && (optionally non_empty x.external_ref)))))))))
