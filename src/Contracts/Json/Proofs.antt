-- ===== src/Contracts/Json/Proofs.antt =====
-- packages/protocol/src/proof.ts: the objects as JSON values, with their fields in the order of their schemas.
use amca_core.Common.{String}
use amca_core.Protocol.Json.{Fields, bool, str, obj, end, field}
use amca_core.Protocol.Preflight.{quarantined}
use amca_core.Protocol.Proofs.{
  mismatch_type_name, Mismatch, verdict_name, ClaimProof, ProofObject,
  release_quarantine_reason_name, DecisionIds, ReleaseDecision, released, blocked, repair,
  quarantined,
}
use amca_core.Contracts.Json.{optional, list_json}
use amca_core.Contracts.Json.Evidence.{evidence_ref_fields}
use amca_core.Contracts.Json.Claims.{claim_fields}

unfoldable pub mismatch_fields : Mismatch → Fields
mismatch_fields x = field "mismatchId" (str x.mismatch_id) (
    field "runId" (str x.run_id) (
      field "type" (str (mismatch_type_name x.type)) (
        field "blocking" (bool x.blocking) (
          field "message" (str x.message) (
            optional str "claimId" x.claim_id (
              optional (λ v. v) "expected" x.expected
                (optional (λ v. v) "actual" x.actual end)))))))

unfoldable pub claim_proof_fields : ClaimProof → Fields
claim_proof_fields x = field "claimId" (str x.claim_id) (
    field "supported" (bool x.supported) (
      field "evidenceRefs" (list_json (λ y. obj (evidence_ref_fields y)) x.evidence_refs)
        (field "mismatchIds" (list_json str x.mismatch_ids) end)))

unfoldable pub proof_object_fields : ProofObject → Fields
proof_object_fields x = field "proofId" (str x.proof_id) (
    field "runId" (str x.run_id) (
      field "candidateId" (str x.candidate_id) (
        field "generatedAt" (str x.generated_at) (
          field "verdict" (str (verdict_name x.verdict)) (
            field "claims" (list_json (λ y. obj (claim_proof_fields y)) x.claims) (
              field "approvedClaimIds" (list_json str x.approved_claim_ids) (
                field "rejectedClaimIds" (list_json str x.rejected_claim_ids) (
                  field "blockingMismatches"
                    (list_json (λ y. obj (mismatch_fields y)) x.blocking_mismatches)
                    (field "evaluatedClaims"
                      (list_json (λ y. obj (claim_fields y)) x.evaluated_claims) end)))))))))

-- The fields from the status to the blocking mismatch ids, which three of the decisions share.
abbrev release_head : String → DecisionIds String → Fields → Fields
release_head status ids rest = field "status" (str status) (
    field "runId" (str ids.run_id) (
      field "proofId" (str ids.proof_id) (
        field "approvedClaimIds" (list_json str ids.approved_claim_ids)
          (field "blockingMismatchIds" (list_json str ids.blocking_mismatch_ids) rest))))

unfoldable pub release_decision_fields : ReleaseDecision → Fields
release_decision_fields (released ids message) =
    release_head "released" ids (optional str "finalMessage" message end)
release_decision_fields (blocked ids hints) =
    release_head "blocked" ids (optional (list_json str) "repairHints" hints end)
release_decision_fields (repair ids instructions) =
    release_head "needs_repair" ids (field "repairInstructions" (list_json str instructions) end)
release_decision_fields (quarantined ids reason) = field "status" (str "quarantined") (
    field "runId" (str ids.run_id) (
      field "approvedClaimIds" (list_json str ids.approved_claim_ids) (
        field "blockingMismatchIds" (list_json str ids.blocking_mismatch_ids) (
          field "reason" (str (release_quarantine_reason_name reason))
            (optional str "proofId" ids.proof_id end)))))
