-- ===== src/Proof/Evaluation.antt =====
-- packages/proof/src/proof-engine.ts: the input of the engine, and the evaluations it builds.
use amca_core.Common.{ℕ, String, true, false, Option, none, some, List, [], ◌∷◌, map, length, ◌+s◌}
use amca_core.Protocol.Json.{
  Value, Items, Fields, num, str, arr, obj, bool, nil, cons, end, field, nat,
}
use amca_core.Protocol.Evidence.{EvidenceKind, EvidenceRef, ExternalStateObservation, kind_name}
use amca_core.Protocol.Effects.{EffectReceipt, effect_status_has_eq}
use amca_core.Protocol.Claims.{
  Claim, FinalCandidate, CurrentStatePredicate, Primitive, string, number, boolean,
  claim_type_has_eq,
}
use amca_core.Protocol.Proofs.{
  Mismatch, missing_evidence, unsupported_claim, stale_external_state, unverified_receipt,
  ClaimProof,
}
use amca_core.Proof.Mismatches.{build_blocking_mismatch, build_mismatch_id}

pub record ProofEvaluationInput : Type 0 where
  pub candidate : FinalCandidate
  pub effect_receipts : List EffectReceipt
  pub external_state_observations : List ExternalStateObservation
  pub generated_at : String
  pub proof_id : Option String

pub record ClaimEvaluation : Type 0 where
  pub claim_proof : ClaimProof
  pub mismatches : List Mismatch

unfoldable pub supported_claim : Claim → List EvidenceRef → ClaimEvaluation
supported_claim claim evidence_refs = record {
  claim_proof = record {
    claim_id = claim.claim_id;
    supported = true;
    evidence_refs = evidence_refs;
    mismatch_ids = [];
  };
  mismatches = [];
}

unfoldable pub rejected_claim : Claim → List Mismatch → ClaimEvaluation
rejected_claim claim mismatches = record {
  claim_proof = record {
    claim_id = claim.claim_id;
    supported = false;
    evidence_refs = [];
    mismatch_ids = map (λ mismatch. mismatch.mismatch_id) mismatches;
  };
  mismatches = mismatches;
}

-- `...(value === undefined ? {} : { key: value })`
abbrev pub optional_field : String → Option String → Fields → Fields
optional_field key none rest = rest
optional_field key (some value) rest = field key (str value) rest

abbrev texts : List String → Items
texts [] = nil
texts (s ∷ ss) = cons (str s) (texts ss)

abbrev pub primitive_value : Primitive → Value
primitive_value (string s) = str s
primitive_value (number n) = num n
primitive_value (boolean b) = bool b

unfoldable pub missing_evidence_claim :
    ProofEvaluationInput → Claim → ℕ → EvidenceKind → ClaimEvaluation
unfolding rejected_claim build_blocking_mismatch
missing_evidence_claim input claim claim_index evidence_kind = rejected_claim claim (
    build_blocking_mismatch (record {
      mismatch_id = build_mismatch_id claim.claim_id missing_evidence claim_index;
      run_id = input.candidate.run_id;
      type = missing_evidence;
      message = "Claim is missing required " +s kind_name evidence_kind +s " evidence.";
      claim_id = some claim.claim_id;
      expected = some (
          obj (
            field "evidenceKind" (str (kind_name evidence_kind))
              (field "minimumCount" (num (nat 1)) end)));
      actual = some (obj (field "evidenceRefs" (num (nat (length claim.evidence_refs))) end));
    })
    ∷ [])

unfoldable pub unverified_receipt_claim :
    ProofEvaluationInput → Claim → ℕ → List EvidenceRef → ClaimEvaluation
unfolding rejected_claim build_blocking_mismatch
unverified_receipt_claim input claim claim_index evidence_refs = rejected_claim claim (
    build_blocking_mismatch (record {
      mismatch_id = build_mismatch_id claim.claim_id unverified_receipt claim_index;
      run_id = input.candidate.run_id;
      type = unverified_receipt;
      message = "Claim references effect receipt evidence that was not resolved.";
      claim_id = some claim.claim_id;
      expected = some (
          obj (
            field "evidenceKind" (str "effect_receipt") (
              field "evidenceIds"
                (arr (texts (map (λ evidence_ref. evidence_ref.evidence_id) evidence_refs))) end)));
      actual = some (obj (field "resolvedReceipts" (num (nat 0)) end));
    })
    ∷ [])

unfoldable pub unsupported : ProofEvaluationInput → Claim → ℕ → String → Fields → ClaimEvaluation
unfolding rejected_claim build_blocking_mismatch
unsupported input claim claim_index message expected = rejected_claim claim (
    build_blocking_mismatch (record {
      mismatch_id = build_mismatch_id claim.claim_id unsupported_claim claim_index;
      run_id = input.candidate.run_id;
      type = unsupported_claim;
      message = message;
      claim_id = some claim.claim_id;
      expected = some (obj expected);
      actual = none;
    })
    ∷ [])

unfoldable pub stale : ProofEvaluationInput → Claim → CurrentStatePredicate → ℕ → ClaimEvaluation
unfolding rejected_claim build_blocking_mismatch
stale input claim predicate claim_index = rejected_claim claim (
    build_blocking_mismatch (record {
      mismatch_id = build_mismatch_id claim.claim_id stale_external_state claim_index;
      run_id = input.candidate.run_id;
      type = stale_external_state;
      message = "External state observation is stale for the current-state claim.";
      claim_id = some claim.claim_id;
      expected = some (
          obj (
            field "freshnessRequirementMs" (num (nat predicate.freshness_requirement_ms))
              (field "generatedAt" (str input.generated_at) end)));
      actual = none;
    })
    ∷ [])
