-- ===== src/Proof/Engine.antt =====
-- packages/proof/src/proof-engine.ts: evaluateProof and the evaluation of one claim.
pub mod Claims
pub mod Backing
pub mod Verdict
use amca_core.Common.{
  ℕ, ◌+◌, String, Bool, true, false, not, Option, none, some, List, [], ◌∷◌, ◌++◌, map, filter,
  find, any, if◌then◌else◌, ◌+s◌, sanitize_id_part,
}
use amca_core.Common.Equality.{◌==◌}
use amca_core.Protocol.Json.{Fields, str, end, field}
use amca_core.Protocol.Host.{Host}
use amca_core.Protocol.Evidence.{ExternalStateObservation, effect_receipt, external_observation}
use amca_core.Protocol.Effects.{EffectReceipt, succeeded, effect_status_has_eq}
use amca_core.Protocol.Claims.{
  Claim, ClaimPredicate, FinalCandidate, HistoricalActionPredicate, TestResultPredicate,
  CurrentStatePredicate, historical, test, current, predicate_kind, claim_type_has_eq,
  claim_type_name, verb_name, test_status_name, operator_name,
}
use amca_core.Protocol.Proofs.{Mismatch, ProofObject, pass, fail}
use amca_core.Proof.Resolver.{
  Resolved, filter_evidence_refs_by_kind, resolve_effect_receipts,
  resolve_external_state_observations,
}
use amca_core.Proof.Evaluation.{
  ProofEvaluationInput, ClaimEvaluation, supported_claim, missing_evidence_claim,
  unverified_receipt_claim, unsupported, stale, optional_field, primitive_value,
}
use amca_core.Proof.Predicates.{
  admitted_effect_receipts, admitted_external_state_observations, test_result_receipt_matches,
  historical_action_receipt_matches, current_state_identity_matches, observation_is_fresh,
  observed_state_satisfies_predicate,
}

-- `list.length === 0`
abbrev pub is_empty {ℓ} : {A : Type ℓ} → List A → Bool
is_empty [] = true
is_empty (x ∷ xs) = false

-- `match === undefined ? … : supportedClaim(claim, [match.claimEvidenceRef])`
abbrev supported_by : {S : Type 0} → Claim → Option (Resolved S) → ClaimEvaluation → ClaimEvaluation
supported_by claim none otherwise = otherwise
supported_by claim (some match) otherwise = supported_claim claim (match.claim_evidence_ref ∷ [])

module _ (host : Host) (input : ProofEvaluationInput) (claim : Claim) where
  -- The receipts that the claim's references resolve to.
  unfoldable pub claim_receipts : List (Resolved EffectReceipt)
  claim_receipts =
      resolve_effect_receipts (filter_evidence_refs_by_kind claim.evidence_refs effect_receipt)
        (admitted_effect_receipts host input.candidate.run_id input.effect_receipts)

  -- What evaluateTestResultClaim and evaluateHistoricalActionClaim share, statement by statement: they
  -- differ in the test of a receipt and in the mismatch where no receipt passes it.
  unfoldable pub evaluate_receipt_claim :
      (EffectReceipt → Bool) → String → Fields → ℕ → ClaimEvaluation
  evaluate_receipt_claim matches message expected claim_index =
      let evidence_refs = filter_evidence_refs_by_kind claim.evidence_refs effect_receipt in
      if is_empty evidence_refs
      then missing_evidence_claim input claim claim_index effect_receipt
      else if is_empty claim_receipts
      then unverified_receipt_claim input claim claim_index evidence_refs
      else if any (λ r. not (r.source.status == succeeded)) claim_receipts
      then unverified_receipt_claim input claim claim_index evidence_refs
      else supported_by claim (find (λ r. matches r.source) claim_receipts)
          (unsupported input claim claim_index message expected)

  unfoldable pub evaluate_test_result_claim : TestResultPredicate → ℕ → ClaimEvaluation
  unfolding evaluate_receipt_claim
  evaluate_test_result_claim predicate =
      evaluate_receipt_claim (λ receipt. test_result_receipt_matches receipt predicate)
        "No referenced effect receipt supports the test-result predicate."
        (field "expectedReceiptType" (str "test_run") (
          field "expectedCapabilityId" (str predicate.capability_id) (
            field "expectedStatus" (str (test_status_name predicate.expected_status))
              (optional_field "expectedTestSuiteId" predicate.test_suite_id end))))

  unfoldable pub evaluate_historical_action_claim : HistoricalActionPredicate → ℕ → ClaimEvaluation
  unfolding evaluate_receipt_claim
  evaluate_historical_action_claim predicate =
      evaluate_receipt_claim (λ receipt. historical_action_receipt_matches receipt predicate)
        "No referenced effect receipt supports the historical-action predicate."
        (field "expectedReceiptType" (str predicate.required_receipt_type) (
          field "expectedCapabilityId" (str predicate.capability_id) (
            field "expectedActionVerb" (str (verb_name predicate.action_verb)) (
              field "expectedSubjectType" (str predicate.subject_type) (
                field "expectedTargetType" (str predicate.target_type) (
                  optional_field "expectedSubjectId" predicate.subject_id
                    (optional_field "expectedTargetId" predicate.target_id end)))))))

  unfoldable pub claim_observations : List (Resolved ExternalStateObservation)
  claim_observations =
      resolve_external_state_observations
        (filter_evidence_refs_by_kind claim.evidence_refs external_observation)
        (admitted_external_state_observations host input.candidate.run_id
          input.external_state_observations)

  unfoldable pub evaluate_current_state_claim : CurrentStatePredicate → ℕ → ClaimEvaluation
  evaluate_current_state_claim predicate claim_index =
      let evidence_refs = filter_evidence_refs_by_kind claim.evidence_refs external_observation in
      let identity_matches =
        filter (λ r. current_state_identity_matches r.source predicate) claim_observations in
      let fresh_matches =
        filter
          (λ r.
            observation_is_fresh host r.source predicate.freshness_requirement_ms
              input.generated_at)
          identity_matches in
      if is_empty evidence_refs
      then missing_evidence_claim input claim claim_index external_observation
      else if is_empty claim_observations
      then unsupported input claim claim_index
          "No external state observation can be resolved for the referenced evidence."
          (field "expectedEvidenceKind" (str "external_observation") end)
      else if is_empty identity_matches
      then unsupported input claim claim_index
          "No referenced external state observation matches the current-state subject."
          (field "observationType" (str predicate.observation_type) (
            field "subjectType" (str predicate.subject_type)
              (field "subjectId" (str predicate.subject_id) end)))
      else if is_empty fresh_matches
      then stale input claim predicate claim_index
      else supported_by claim
          (find (λ r. observed_state_satisfies_predicate r.source predicate) fresh_matches)
          (unsupported input claim claim_index
            "No fresh external state observation satisfies the current-state predicate."
            (field "property" (str predicate.property) (
              field "operator" (str (operator_name predicate.operator))
                (field "expectedValue" (primitive_value predicate.expected_value) end))))

  unfoldable pub evaluate_predicate : ClaimPredicate → ℕ → ClaimEvaluation
  evaluate_predicate (historical predicate) = evaluate_historical_action_claim predicate
  evaluate_predicate (test predicate) = evaluate_test_result_claim predicate
  evaluate_predicate (current predicate) = evaluate_current_state_claim predicate

  unfoldable pub evaluate_claim : ℕ → ClaimEvaluation
  evaluate_claim claim_index =
      if not (claim.type == predicate_kind claim.predicate)
      then unsupported input claim claim_index "Claim type does not match predicate kind." (
          field "type" (str (claim_type_name claim.type))
            (field "predicateKind" (str (claim_type_name (predicate_kind claim.predicate))) end))
      else evaluate_predicate claim.predicate claim_index

unfoldable pub build_proof_id : FinalCandidate → String → String
build_proof_id candidate generated_at =
    "proof_"
    +s sanitize_id_part candidate.run_id
    +s "_"
    +s sanitize_id_part candidate.candidate_id
    +s "_"
    +s sanitize_id_part generated_at

module _ (host : Host) (input : ProofEvaluationInput) where
  -- `claims.map((claim, index) => evaluateClaim(input, claim, index))`
  unfoldable pub evaluations_from : ℕ → List Claim → List ClaimEvaluation
  evaluations_from index [] = []
  evaluations_from index (claim ∷ claims) =
      evaluate_claim host input claim index ∷ evaluations_from (index + 1) claims

-- `evaluations.flatMap((evaluation) => evaluation.mismatches.filter((mismatch) => mismatch.blocking))`
unfoldable pub blocking_of : List ClaimEvaluation → List Mismatch
blocking_of [] = []
blocking_of (evaluation ∷ evaluations) =
    filter (λ mismatch. mismatch.blocking) evaluation.mismatches ++ blocking_of evaluations

abbrev or_else : Option String → String → String
or_else none fallback = fallback
or_else (some s) fallback = s

unfoldable pub evaluate_proof : Host → ProofEvaluationInput → ProofObject
unfolding evaluations_from blocking_of
evaluate_proof host input =
    let evaluations = evaluations_from host input 0 input.candidate.claims in
    let blocking_mismatches = blocking_of evaluations in
    let claim_proofs = map (λ evaluation. evaluation.claim_proof) evaluations in
    record {
      proof_id = or_else input.proof_id (build_proof_id input.candidate input.generated_at);
      run_id = input.candidate.run_id;
      candidate_id = input.candidate.candidate_id;
      generated_at = input.generated_at;
      verdict = if is_empty blocking_mismatches then pass else fail;
      claims = claim_proofs;
      approved_claim_ids = map (λ p. p.claim_id) (filter (λ p. p.supported) claim_proofs);
      rejected_claim_ids = map (λ p. p.claim_id) (filter (λ p. not p.supported) claim_proofs);
      blocking_mismatches = blocking_mismatches;
      evaluated_claims = input.candidate.claims;
    }
