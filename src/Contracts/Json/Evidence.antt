-- ===== src/Contracts/Json/Evidence.antt =====
-- packages/protocol/src/evidence.ts: the objects as JSON values, with their fields in the order of their schemas.
use amca_core.Common.{}
use amca_core.Protocol.Evidence.{
  admission_name, kind_name, sensitivity_name, EvidenceRef, ExternalStateObservation,
}
use amca_core.Protocol.Json.{Fields, str, obj, end, field}
use amca_core.Contracts.Json.{optional, list_json}

unfoldable pub evidence_ref_fields : EvidenceRef → Fields
evidence_ref_fields x =
    optional (λ y. str (admission_name y)) "admissionStatus" x.admission_status
      (field "evidenceId" (str x.evidence_id) (
        field "kind" (str (kind_name x.kind)) (
          field "sourceEventId" (str x.source_event_id) (
            field "hash" (str x.hash) (
              field "observedAt" (str x.observed_at) (
                field "sensitivity" (str (sensitivity_name x.sensitivity)) (
                  optional str "artifactUri" x.artifact_uri (
                    optional str "expiresAt" x.expires_at
                      (optional obj "metadata" x.metadata end)))))))))

unfoldable pub external_state_observation_fields : ExternalStateObservation → Fields
external_state_observation_fields x = field "observationId" (str x.observation_id) (
    field "runId" (str x.run_id) (
      field "observationType" (str x.observation_type) (
        field "subjectType" (str x.subject_type) (
          field "subjectId" (str x.subject_id) (
            field "observedState" (obj x.observed_state) (
              field "observedAt" (str x.observed_at) (
                field "expiresAt" (str x.expires_at) (
                  field "payloadHash" (str x.payload_hash) (
                    field "evidence" (list_json (λ y. obj (evidence_ref_fields y)) x.evidence)
                      end)))))))))
