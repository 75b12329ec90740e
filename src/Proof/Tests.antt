-- ===== src/Proof/Tests.antt =====
-- The proof engine at a candidate of two claims.
use amca_core.Common.{true, not, ◌&&◌, ◌≡◌, ◌≢◌, ◌⊎◌, refl, [], any, map, join, decimal}
use amca_core.Common.Equality.{◌==◌}
use amca_core.Protocol.Json.{end}
use amca_core.Protocol.Samples.{engine}
use amca_core.Protocol.Effects.{succeeded, effect_status_has_eq}
use amca_core.Protocol.Claims.{predicate_kind}
use amca_core.Protocol.Proofs.{pass, fail}
use amca_core.Contracts.Canonical.{canonical_hash, canonical_json}
use amca_core.Contracts.Sha256.{sha256_hex}
use amca_core.Proof.Resolver.{
  filter_evidence_refs_by_kind, evidence_refs_match, resolve_effect_receipts,
  resolve_external_state_observations, resolve, resolve_ref,
}
use amca_core.Proof.Predicates.{
  canonical_object_hash, payload_hash_holds, evidence_is_bound, receipt_is_admitted,
  observation_is_admitted, admitted_effect_receipts, admitted_external_state_observations, is_text,
  optional_payload_field_matches, test_result_receipt_matches, current_state_identity_matches,
  observation_is_fresh, observed_state_satisfies_predicate, strictly_equals,
  observed_value_is_comparable_primitive, observed_value_satisfies,
}
use amca_core.Proof.Evaluation.{supported_claim}
use amca_core.Proof.Engine.{
  evaluate_proof, evaluate_claim, evaluate_predicate, evaluate_test_result_claim,
  evaluate_current_state_claim, evaluate_receipt_claim, claim_receipts, claim_observations,
}
use amca_core.Proof.Engine.Claims.{is_supported, receipt_claim_supported, current_state_supported}
use amca_core.Proof.Engine.Backing.{supported_is_backed, Backing}
use amca_core.Proof.Engine.Verdict.{IsEvaluation, evaluate_claim_lem, verdict_exact, claim_ids}
use amca_core.Proof.Samples.{input, passed_claim, open_claim, passed_predicate, open_predicate}

open_is_supported : is_supported (evaluate_claim engine input open_claim 1) ≡ true
unfolding evaluate_claim evaluate_predicate evaluate_current_state_claim claim_observations
    supported_claim filter_evidence_refs_by_kind evidence_refs_match
    resolve_external_state_observations resolve resolve_ref admitted_external_state_observations
    observation_is_admitted payload_hash_holds canonical_object_hash evidence_is_bound
    current_state_identity_matches observation_is_fresh observed_state_satisfies_predicate
    observed_value_satisfies observed_value_is_comparable_primitive strictly_equals canonical_hash
    canonical_json sha256_hex join decimal
open_is_supported = refl

passed_is_supported : is_supported (evaluate_claim engine input passed_claim 0) ≡ true
unfolding evaluate_claim evaluate_predicate evaluate_test_result_claim evaluate_receipt_claim
    claim_receipts supported_claim filter_evidence_refs_by_kind evidence_refs_match
    resolve_effect_receipts resolve resolve_ref admitted_effect_receipts receipt_is_admitted
    payload_hash_holds canonical_object_hash evidence_is_bound test_result_receipt_matches is_text
    optional_payload_field_matches canonical_hash canonical_json sha256_hex join decimal
passed_is_supported = refl

supported_is_backed_example :
    (open_claim.type ≡ predicate_kind open_claim.predicate)
    × Backing engine input open_claim open_claim.predicate
supported_is_backed_example = supported_is_backed engine input open_claim 1 open_is_supported

receipt_claim_supported_example :
    is_supported (
      evaluate_receipt_claim engine input passed_claim
        (λ receipt. test_result_receipt_matches receipt passed_predicate)
        ""
        end
        0)
    ≡ (not
          (any (λ r. not (r.source.status == succeeded)) (claim_receipts engine input passed_claim))
        && any
            (λ r. test_result_receipt_matches r.source passed_predicate)
            (claim_receipts engine input passed_claim))
receipt_claim_supported_example =
    receipt_claim_supported engine input passed_claim
      (λ receipt. test_result_receipt_matches receipt passed_predicate) "" end 0

current_state_supported_example :
    is_supported (evaluate_current_state_claim engine input open_claim open_predicate 1)
    ≡ any
        (λ r.
          current_state_identity_matches r.source open_predicate
          && (observation_is_fresh engine r.source 1000 input.generated_at
              && observed_state_satisfies_predicate r.source open_predicate))
        (claim_observations engine input open_claim)
current_state_supported_example = current_state_supported engine input open_claim open_predicate 1

evaluate_claim_lem_example :
    IsEvaluation "run_1" passed_claim (evaluate_claim engine input passed_claim 0)
evaluate_claim_lem_example = evaluate_claim_lem engine input passed_claim 0

verdict_exact_example :
    let proof = evaluate_proof engine input in
    (((proof.verdict ≡ pass)
        × (proof.approved_claim_ids ≡ claim_ids input.candidate.claims)
        × (proof.rejected_claim_ids ≡ [])
        × (proof.blocking_mismatches ≡ []))
      ⊎ ((proof.verdict ≡ fail)
          × (proof.rejected_claim_ids ≢ [])
          × (proof.blocking_mismatches ≢ [])))
    × (map (λ p. p.claim_id) proof.claims ≡ claim_ids input.candidate.claims)
verdict_exact_example = verdict_exact engine input
