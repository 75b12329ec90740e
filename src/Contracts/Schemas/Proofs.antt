-- ===== src/Contracts/Schemas/Proofs.antt =====
-- packages/contracts/src/schemas.ts: the schemas of packages/protocol/src/proof.ts, on values of their types.
use amca_core.Common.{String, Bool, not, ◌&&◌, List, all}
use amca_core.Protocol.Preflight.{quarantined}
use amca_core.Protocol.Proofs.{
  Mismatch, ClaimProof, ProofObject, DecisionIds, ReleaseDecision, released, blocked, repair,
  quarantined,
}
use amca_core.Protocol.Host.{Host}
use amca_core.Contracts.Canonical.Copies.{is_json}
use amca_core.Contracts.Schemas.{non_empty, optionally, is_nil}
use amca_core.Contracts.Schemas.Evidence.{evidence_ref_schema}
use amca_core.Contracts.Schemas.Claims.{claim_schema}

module _ (host : Host) where
  unfoldable pub mismatch_schema : Mismatch → Bool
  mismatch_schema x =
      non_empty x.mismatch_id
      && (non_empty x.run_id
          && (non_empty x.message
              && (optionally non_empty x.claim_id
                  && (optionally is_json x.expected && (optionally is_json x.actual)))))

  unfoldable pub claim_proof_schema : ClaimProof → Bool
  claim_proof_schema x =
      non_empty x.claim_id
      && (all (evidence_ref_schema host) x.evidence_refs && (all non_empty x.mismatch_ids))

  unfoldable pub proof_object_schema : ProofObject → Bool
  proof_object_schema x =
      non_empty x.proof_id
      && (non_empty x.run_id
          && (non_empty x.candidate_id
              && (host.is_iso_datetime x.generated_at
                  && (all claim_proof_schema x.claims
                      && (all non_empty x.approved_claim_ids
                          && (all non_empty x.rejected_claim_ids
                              && (all mismatch_schema x.blocking_mismatches
                                  && (all (claim_schema host) x.evaluated_claims))))))))

  abbrev ids_schema : DecisionIds String → Bool
  ids_schema ids =
      non_empty ids.run_id && (non_empty ids.proof_id && all non_empty ids.approved_claim_ids)

  -- `z.array(…).min(1)`
  abbrev some_ids : List String → Bool
  some_ids ids = not (is_nil ids) && all non_empty ids

  unfoldable pub release_decision_schema : ReleaseDecision → Bool
  release_decision_schema (released ids message) =
      ids_schema ids && (is_nil ids.blocking_mismatch_ids && optionally non_empty message)
  release_decision_schema (blocked ids hints) =
      ids_schema ids && (some_ids ids.blocking_mismatch_ids && optionally (all non_empty) hints)
  release_decision_schema (repair ids instructions) =
      ids_schema ids && (some_ids ids.blocking_mismatch_ids && some_ids instructions)
  release_decision_schema (quarantined ids reason) =
      non_empty ids.run_id
      && (all non_empty ids.approved_claim_ids
          && (some_ids ids.blocking_mismatch_ids && optionally non_empty ids.proof_id))
