-- ===== src/Kernel/ReleaseGate/Decisions.antt =====
-- packages/kernel/src/release-gate.ts: decisions, alone and behind the proof engine.
use mathlib.Core.List.{append_assoc}
use amca_core.Common.{
  String, Bool, true, false, Option, some, ◌&&◌, ◌≡◌, ◌≢◌, ◌⊎◌, inl, inr, refl, ap, List, [], ◌∷◌,
  ◌++◌, map, filter, any, arith,
}
use amca_core.Common.Equality.{◌==◌, string_has_eq, str_eq_iff}
use amca_core.Protocol.Host.{Host}
use amca_core.Protocol.Claims.{Claim, FinalCandidate}
use amca_core.Protocol.Proofs.{
  ProofObject, pass, ReleaseDecision, DecisionIds, released, blocked, repair, quarantined,
}
use amca_core.Proof.Evaluation.{ProofEvaluationInput}
use amca_core.Proof.Engine.{evaluate_proof}
use amca_core.Proof.Engine.Verdict.{verdict_exact, claim_ids}
use amca_core.Kernel.ReleaseGate.{
  with_optional_proof, ReleaseGateInput, decide_release, blocking_mismatches, is_empty, is_pass,
  ids_of,
}
use amca_core.Kernel.ReleaseGate.Render.{
  render_approved_claims, render_approved_claim_predicate, message_of,
}

abbrev pub is_released : ReleaseDecision → Bool
is_released (released ids message) = true
is_released _ = false

abbrev pub decision_ids : ReleaseDecision → DecisionIds (Option String)
decision_ids (released ids message) = with_optional_proof ids
decision_ids (blocked ids hints) = with_optional_proof ids
decision_ids (repair ids instructions) = with_optional_proof ids
decision_ids (quarantined ids reason) = ids

-- The decision is a release exactly where the verdict of the proof is a pass and none of its mismatches
-- is blocking.
pub released_exact :
    (host : Host) (input : ReleaseGateInput)
    → is_released (decide_release host input)
      ≡ (is_pass input.proof.verdict && is_empty (blocking_mismatches input.proof))
unfolding decide_release
released_exact host input = ground arith

-- Each decision carries the ids of its proof and the claims that the proof approves; a released one
-- has no blocking mismatch id, every other one has some.
pub decision_accounts :
    (host : Host) (input : ReleaseGateInput)
    → let decision = decide_release host input in
      let ids = decision_ids decision in
      (ids.run_id ≡ input.proof.run_id)
      × (ids.proof_id ≡ some input.proof.proof_id)
      × (ids.approved_claim_ids ≡ input.proof.approved_claim_ids)
      × (is_empty ids.blocking_mismatch_ids ≡ is_released decision)
unfolding decide_release
decision_accounts host input = ground arith

any_at :
    (before after : List String) (id : String) → any (λ x. x == id) (before ++ id ∷ after) ≡ true
any_at [] after id = rw ((str_eq_iff id id).1 refl)
any_at (x ∷ before) after id = ground (arith, any_at before after id)

keeps_all :
    (before : List String) (claims : List Claim)
    → filter (λ claim. any (λ id. id == claim.claim_id) (before ++ claim_ids claims)) claims
      ≡ claims
keeps_all before [] = refl
keeps_all before (claim ∷ claims) = rw (any_at before (claim_ids claims) claim.claim_id) (
    ap (λ rest. claim ∷ rest)
      (rw append_assoc at (keeps_all (before ++ claim.claim_id ∷ []) claims)))

-- The gate behind the engine, on the candidate that was proved.
abbrev pub release_of : Host → ProofEvaluationInput → ReleaseDecision
release_of host input =
    decide_release host (record { candidate = input.candidate; proof = evaluate_proof host input })

passing_release :
    (host : Host) (candidate : FinalCandidate) (proof : ProofObject)
    → proof.verdict ≡ pass
    → proof.blocking_mismatches ≡ []
    → proof.approved_claim_ids ≡ claim_ids candidate.claims
    → decide_release host (record { candidate = candidate; proof = proof })
      ≡ released (ids_of proof []) (
          message_of host
            (map (λ claim. render_approved_claim_predicate host claim.predicate) candidate.claims))
unfolding decide_release render_approved_claims
passing_release host candidate proof v b a = rw (v, b, a, keeps_all [] candidate.claims)

-- Behind the engine the gate releases exactly when no claim was rejected, and then the released text
-- renders all the claims of the candidate, in their order.
pub release_after_proof :
    (host : Host) (input : ProofEvaluationInput)
    → let proof = evaluate_proof host input in
      ((proof.rejected_claim_ids ≡ [])
        × (release_of host input
            ≡ released (ids_of proof []) (
                message_of host (
                  map
                    (λ claim. render_approved_claim_predicate host claim.predicate)
                    input.candidate.claims))))
      ⊎ ((proof.rejected_claim_ids ≢ []) × (is_released (release_of host input) ≡ false))
release_after_proof host input = elim (verdict_exact host input).0 [
  | inl (v, approved, rejected, clear) ↦
      inl (
        rejected,
        passing_release host input.candidate (evaluate_proof host input) v clear approved,
      )
  | inr (v, rejected, held) ↦ inr (rejected, rw (released_exact host _, v))
]
