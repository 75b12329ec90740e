-- ===== src/Kernel/Tests.antt =====
-- The release gate behind the proof engine, at a candidate of two claims.
use amca_core.Common.{some, join, decimal, refl, true, false, ◌&&◌, ◌≡◌, ◌≢◌, ◌⊎◌, [], map}
use mathlib.Core.List.{Memᴰ}
use amca_core.Protocol.Claims.{predicate_kind}
use amca_core.Contracts.Canonical.{canonical_hash, canonical_json}
use amca_core.Contracts.Sha256.{sha256_hex}
use amca_core.Proof.Resolver.{
  filter_evidence_refs_by_kind, evidence_refs_match, resolve_effect_receipts,
  resolve_external_state_observations, resolve, resolve_ref,
}
use amca_core.Proof.Predicates.{
  canonical_object_hash, payload_hash_holds, evidence_is_bound, receipt_is_admitted,
  observation_is_admitted, admitted_effect_receipts, admitted_external_state_observations, is_text,
  optional_payload_field_matches, test_result_receipt_matches, current_state_identity_matches,
  observation_is_fresh, observed_state_satisfies_predicate, strictly_equals,
  observed_value_is_comparable_primitive, observed_value_satisfies,
}
use amca_core.Proof.Engine.{
  evaluate_proof, evaluate_claim, evaluate_predicate, evaluate_test_result_claim,
  evaluate_current_state_claim, evaluate_receipt_claim, claim_receipts, claim_observations,
}
use amca_core.Proof.Engine.Backing.{Backing}
use amca_core.Proof.Evaluation.{supported_claim}
use amca_core.Kernel.ReleaseGate.Safety.{released_claims_backed}
use amca_core.Protocol.Samples.{engine}
use amca_core.Protocol.Proofs.{released}
use amca_core.Proof.Samples.{input, open_claim}
use amca_core.Kernel.ReleaseGate.{
  ReleaseGateInput, decide_release, blocking_mismatches, is_empty, is_pass, ids_of,
}
use amca_core.Kernel.ReleaseGate.Render.{
  render_approved_claims, render_approved_claim_predicate, message_of,
}
use amca_core.Kernel.ReleaseGate.Decisions.{
  is_released, decision_ids, released_exact, decision_accounts, release_of, release_after_proof,
}

abbrev gate_input : ReleaseGateInput
gate_input = record { candidate = input.candidate; proof = evaluate_proof engine input }

released_exact_example :
    is_released (decide_release engine gate_input)
    ≡ (is_pass gate_input.proof.verdict && is_empty (blocking_mismatches gate_input.proof))
released_exact_example = released_exact engine gate_input

decision_accounts_example :
    let decision = decide_release engine gate_input in
    let ids = decision_ids decision in
    (ids.run_id ≡ gate_input.proof.run_id)
    × (ids.proof_id ≡ some gate_input.proof.proof_id)
    × (ids.approved_claim_ids ≡ gate_input.proof.approved_claim_ids)
    × (is_empty ids.blocking_mismatch_ids ≡ is_released decision)
decision_accounts_example = decision_accounts engine gate_input

release_after_proof_example :
    let proof = evaluate_proof engine input in
    ((proof.rejected_claim_ids ≡ [])
      × (release_of engine input
          ≡ released (ids_of proof []) (
              message_of engine (
                map
                  (λ claim. render_approved_claim_predicate engine claim.predicate)
                  input.candidate.claims))))
    ⊎ ((proof.rejected_claim_ids ≢ []) × (is_released (release_of engine input) ≡ false))
release_after_proof_example = release_after_proof engine input

input_released : is_released (release_of engine input) ≡ true
unfolding evaluate_proof decide_release blocking_mismatches render_approved_claims evaluate_claim
    evaluate_predicate evaluate_current_state_claim evaluate_test_result_claim
    evaluate_receipt_claim claim_receipts claim_observations supported_claim
    filter_evidence_refs_by_kind evidence_refs_match resolve_effect_receipts
    resolve_external_state_observations resolve resolve_ref admitted_effect_receipts
    receipt_is_admitted admitted_external_state_observations observation_is_admitted
    payload_hash_holds canonical_object_hash evidence_is_bound current_state_identity_matches
    observation_is_fresh observed_state_satisfies_predicate observed_value_satisfies
    observed_value_is_comparable_primitive strictly_equals test_result_receipt_matches is_text
    optional_payload_field_matches canonical_hash canonical_json sha256_hex join decimal
input_released = refl

released_claims_backed_example :
    (open_claim.type ≡ predicate_kind open_claim.predicate)
    × Backing engine input open_claim open_claim.predicate
released_claims_backed_example =
    released_claims_backed engine input input_released open_claim (Memᴰ.tail (Memᴰ.head refl))
