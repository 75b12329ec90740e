-- ===== src/Contracts/Schemas/Evidence.antt =====
-- packages/contracts/src/schemas.ts: the schemas of packages/protocol/src/evidence.ts, on values of their types.
use amca_core.Common.{Bool, ◌&&◌, all}
use amca_core.Protocol.Evidence.{EvidenceRef, ExternalStateObservation}
use amca_core.Protocol.Host.{Host}
use amca_core.Contracts.Canonical.Copies.{is_json_fields}
use amca_core.Contracts.Schemas.{non_empty, optionally, is_sha256_hash}

module _ (host : Host) where
  unfoldable pub evidence_ref_schema : EvidenceRef → Bool
  evidence_ref_schema x =
      non_empty x.evidence_id
      && (non_empty x.source_event_id
          && (is_sha256_hash x.hash
              && (host.is_iso_datetime x.observed_at
                  && (optionally non_empty x.artifact_uri
                      && (optionally host.is_iso_datetime x.expires_at
                          && (optionally is_json_fields x.metadata))))))

  unfoldable pub external_state_observation_schema : ExternalStateObservation → Bool
  external_state_observation_schema x =
      non_empty x.observation_id
      && (non_empty x.run_id
          && (non_empty x.observation_type
              && (non_empty x.subject_type
                  && (non_empty x.subject_id
                      && (is_json_fields x.observed_state
                          && (host.is_iso_datetime x.observed_at
                              && (host.is_iso_datetime x.expires_at
                                  && (is_sha256_hash x.payload_hash
                                      && (all evidence_ref_schema x.evidence)))))))))
