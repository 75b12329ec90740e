-- ===== src/Kernel/ReleaseGate.antt =====
-- packages/kernel/src/release-gate.ts
pub mod Render
pub mod Decisions
pub mod Safety
use amca_core.Common.{
  String, Bool, true, false, ◌&&◌, Option, none, some, List, [], ◌∷◌, map, filter, any,
  if◌then◌else◌, ◌+s◌,
}
use amca_core.Common.Equality.{◌==◌}
use amca_core.Protocol.Host.{Host}
use amca_core.Protocol.Claims.{FinalCandidate}
use amca_core.Protocol.Proofs.{
  Mismatch, mismatch_type_has_eq, mismatch_type_name, uncertain_external_effect, ProofObject,
  ProofVerdict, pass, fail, needs_repair, quarantine, verdict_name, QuarantineReason,
  inconsistent_evidence, ReleaseDecision, DecisionIds, released, blocked, repair, quarantined,
}
use Render.{render_approved_claims}

pub record ReleaseGateInput : Type 0 where
  pub candidate : FinalCandidate
  pub proof : ProofObject

abbrev pub inconsistent_proof_mismatch_id : String
inconsistent_proof_mismatch_id = "release_gate_inconsistent_proof"

unfoldable pub blocking_mismatches : ProofObject → List Mismatch
blocking_mismatches proof = filter (λ mismatch. mismatch.blocking) proof.blocking_mismatches

abbrev pub is_empty {ℓ} : {A : Type ℓ} → List A → Bool
is_empty [] = true
is_empty (x ∷ xs) = false

abbrev pub is_pass : ProofVerdict → Bool
is_pass pass = true
is_pass _ = false

-- `mismatchIds.length > 0 || verdict === "pass"`
abbrev ids_or_inconsistent : ProofVerdict → List String → List String
ids_or_inconsistent pass mismatch_ids = mismatch_ids
ids_or_inconsistent _ [] = inconsistent_proof_mismatch_id ∷ []
ids_or_inconsistent _ (id ∷ ids) = id ∷ ids

unfoldable pub blocking_mismatch_ids_for_decision : ProofObject → List String
unfolding blocking_mismatches
blocking_mismatch_ids_for_decision proof =
    ids_or_inconsistent proof.verdict
      (map (λ mismatch. mismatch.mismatch_id) (blocking_mismatches proof))

abbrev for_claim : Option String → String
for_claim none = ""
for_claim (some claim_id) = " for claim " +s claim_id

repair_message : Mismatch → String
repair_message mismatch =
    "Resolve "
    +s mismatch_type_name mismatch.type
    +s " mismatch "
    +s mismatch.mismatch_id
    +s for_claim mismatch.claim_id
    +s ": "
    +s mismatch.message

abbrev or_verdict : ProofObject → List String → List String
or_verdict proof [] =
    ("Resolve proof "
      +s proof.proof_id
      +s ": proof verdict "
      +s verdict_name proof.verdict
      +s " did not provide a blocking mismatch.")
    ∷ []
or_verdict proof (m ∷ ms) = m ∷ ms

unfoldable pub repair_messages : ProofObject → List String
unfolding repair_message blocking_mismatches
repair_messages proof = or_verdict proof (map repair_message (blocking_mismatches proof))

unfoldable pub quarantine_reason : ProofObject → QuarantineReason
unfolding blocking_mismatches
quarantine_reason proof =
    if any (λ mismatch. mismatch.type == uncertain_external_effect) (blocking_mismatches proof)
    then QuarantineReason.uncertain_external_effect
    else inconsistent_evidence

abbrev pub ids_of : ProofObject → List String → DecisionIds String
ids_of proof blocking_mismatch_ids = record {
  run_id = proof.run_id;
  proof_id = proof.proof_id;
  approved_claim_ids = proof.approved_claim_ids;
  blocking_mismatch_ids = blocking_mismatch_ids;
}

abbrev pub with_optional_proof : DecisionIds String → DecisionIds (Option String)
with_optional_proof ids = record {
  run_id = ids.run_id;
  proof_id = some ids.proof_id;
  approved_claim_ids = ids.approved_claim_ids;
  blocking_mismatch_ids = ids.blocking_mismatch_ids;
}

unfoldable pub released_decision : Host → ReleaseGateInput → ReleaseDecision
released_decision host input =
    released (ids_of input.proof [])
      (render_approved_claims host input.candidate input.proof.approved_claim_ids)

unfoldable pub blocked_decision : ProofObject → List String → ReleaseDecision
blocked_decision proof ids = blocked (ids_of proof ids) (some (repair_messages proof))

unfoldable pub needs_repair_decision : ProofObject → List String → ReleaseDecision
needs_repair_decision proof ids = repair (ids_of proof ids) (repair_messages proof)

unfoldable pub quarantined_decision : ProofObject → List String → ReleaseDecision
quarantined_decision proof ids =
    quarantined (with_optional_proof (ids_of proof ids)) (quarantine_reason proof)

-- The two switches on the verdict.
unfoldable pub decide_blocked_release : ProofVerdict → ProofObject → List String → ReleaseDecision
unfolding blocked_decision needs_repair_decision quarantined_decision
decide_blocked_release pass proof ids = blocked_decision proof ids
decide_blocked_release fail proof ids = blocked_decision proof ids
decide_blocked_release needs_repair proof ids = needs_repair_decision proof ids
decide_blocked_release quarantine proof ids = quarantined_decision proof ids

unfoldable pub decide_unblocked_release :
    Host → ProofVerdict → ReleaseGateInput → List String → ReleaseDecision
unfolding released_decision blocked_decision needs_repair_decision quarantined_decision
decide_unblocked_release host pass input ids = released_decision host input
decide_unblocked_release host fail input ids = blocked_decision input.proof ids
decide_unblocked_release host needs_repair input ids = needs_repair_decision input.proof ids
decide_unblocked_release host quarantine input ids = quarantined_decision input.proof ids

unfoldable pub decide_release : Host → ReleaseGateInput → ReleaseDecision
unfolding decide_blocked_release decide_unblocked_release blocking_mismatch_ids_for_decision
decide_release host input =
    let ids = blocking_mismatch_ids_for_decision input.proof in
    if is_empty ids
    then decide_unblocked_release host input.proof.verdict input ids
    else decide_blocked_release input.proof.verdict input.proof ids
