-- ===== src/Protocol/Proofs.antt =====
-- packages/protocol/src/mismatch.ts, proof.ts and release.ts
use amca_core.Common.{ℕ, ◌≡◌, Option, Bool, String, List, nat_eq, arith}
use amca_core.Common.Equality.{Eq, by_tag_iff}
use amca_core.Protocol.Json.{Value}
use amca_core.Protocol.Evidence.{EvidenceRef}
use amca_core.Protocol.Claims.{Claim}

pub data MismatchType : Type 0 where
  missing_evidence unsupported_claim stale_external_state unverified_receipt : MismatchType
  policy_violation unauthorized_tool schema_mismatch uncertain_external_effect : MismatchType

abbrev pub mismatch_type_tag : MismatchType → ℕ
mismatch_type_tag missing_evidence = 0
mismatch_type_tag unsupported_claim = 1
mismatch_type_tag stale_external_state = 2
mismatch_type_tag unverified_receipt = 3
mismatch_type_tag policy_violation = 4
mismatch_type_tag unauthorized_tool = 5
mismatch_type_tag schema_mismatch = 6
mismatch_type_tag uncertain_external_effect = 7

pub mismatch_type_tag-injective :
    (a b : MismatchType) → mismatch_type_tag a ≡ mismatch_type_tag b → a ≡ b
mismatch_type_tag-injective a b h = ground arith

instance abbrev pub mismatch_type_has_eq : Eq MismatchType
mismatch_type_has_eq = record {
  beq = λ a b. nat_eq (mismatch_type_tag a) (mismatch_type_tag b);
  beq_iff = by_tag_iff mismatch_type_tag mismatch_type_tag-injective;
}

-- The text of the constant.
abbrev pub mismatch_type_name : MismatchType → String
mismatch_type_name missing_evidence = "missing_evidence"
mismatch_type_name unsupported_claim = "unsupported_claim"
mismatch_type_name stale_external_state = "stale_external_state"
mismatch_type_name unverified_receipt = "unverified_receipt"
mismatch_type_name policy_violation = "policy_violation"
mismatch_type_name unauthorized_tool = "unauthorized_tool"
mismatch_type_name schema_mismatch = "schema_mismatch"
mismatch_type_name uncertain_external_effect = "uncertain_external_effect"

pub record Mismatch : Type 0 where
  pub mismatch_id : String
  pub run_id : String
  pub type : MismatchType
  pub blocking : Bool
  pub message : String
  pub claim_id : Option String
  pub expected : Option Value
  pub actual : Option Value

pub data ProofVerdict : Type 0 where
  pass fail needs_repair quarantine : ProofVerdict

-- The text of the constant.
abbrev pub verdict_name : ProofVerdict → String
verdict_name pass = "pass"
verdict_name fail = "fail"
verdict_name needs_repair = "needs_repair"
verdict_name quarantine = "quarantine"

pub record ClaimProof : Type 0 where
  pub claim_id : String
  pub supported : Bool
  pub evidence_refs : List EvidenceRef
  pub mismatch_ids : List String

pub record ProofObject : Type 0 where
  pub proof_id : String
  pub run_id : String
  pub candidate_id : String
  pub generated_at : String
  pub verdict : ProofVerdict
  pub claims : List ClaimProof
  pub approved_claim_ids : List String
  pub rejected_claim_ids : List String
  pub blocking_mismatches : List Mismatch
  pub evaluated_claims : List Claim

pub data QuarantineReason : Type 0 where
  uncertain_external_effect inconsistent_evidence : QuarantineReason
  policy_required unrecoverable_schema_error : QuarantineReason

-- The text of the constant.
abbrev pub release_quarantine_reason_name : QuarantineReason → String
release_quarantine_reason_name QuarantineReason.uncertain_external_effect =
    "uncertain_external_effect"
release_quarantine_reason_name QuarantineReason.inconsistent_evidence = "inconsistent_evidence"
release_quarantine_reason_name QuarantineReason.policy_required = "policy_required"
release_quarantine_reason_name QuarantineReason.unrecoverable_schema_error =
    "unrecoverable_schema_error"

-- What the four decisions share; the proof id of a quarantined one is optional.
pub record DecisionIds (P : Type 0) : Type 0 where
  pub run_id : String
  pub proof_id : P
  pub approved_claim_ids : List String
  pub blocking_mismatch_ids : List String

-- The union that `status` tells apart; a released decision has no blocking mismatch ids.
pub data ReleaseDecision : Type 0 where
  released : DecisionIds String → Option String → ReleaseDecision
  blocked : DecisionIds String → Option (List String) → ReleaseDecision
  repair : DecisionIds String → List String → ReleaseDecision
  quarantined : DecisionIds (Option String) → QuarantineReason → ReleaseDecision
