-- ===== src/Protocol/Claims.antt =====
-- packages/protocol/src/claims.ts and proposals.ts (FinalCandidate)
use amca_core.Common.{ℕ, ◌≡◌, Option, Bool, String, List, nat_eq, arith}
use amca_core.Common.Equality.{Eq, by_tag_iff}
use amca_core.Protocol.Json.{Number}
use amca_core.Protocol.Evidence.{EvidenceRef}

pub data ClaimType : Type 0 where
  historical_action test_result current_state : ClaimType

abbrev pub claim_type_tag : ClaimType → ℕ
claim_type_tag historical_action = 0
claim_type_tag test_result = 1
claim_type_tag current_state = 2

pub claim_type_tag-injective : (a b : ClaimType) → claim_type_tag a ≡ claim_type_tag b → a ≡ b
claim_type_tag-injective a b h = ground arith

instance abbrev pub claim_type_has_eq : Eq ClaimType
claim_type_has_eq = record {
  beq = λ a b. nat_eq (claim_type_tag a) (claim_type_tag b);
  beq_iff = by_tag_iff claim_type_tag claim_type_tag-injective;
}

-- The text of the constant.
abbrev pub claim_type_name : ClaimType → String
claim_type_name historical_action = "historical_action"
claim_type_name test_result = "test_result"
claim_type_name current_state = "current_state"

pub data HistoricalActionVerb : Type 0 where
  created updated deleted : HistoricalActionVerb
  sent opened executed : HistoricalActionVerb

-- The text of the constant.
abbrev pub verb_name : HistoricalActionVerb → String
verb_name created = "created"
verb_name updated = "updated"
verb_name deleted = "deleted"
verb_name sent = "sent"
verb_name opened = "opened"
verb_name executed = "executed"

pub data TestStatus : Type 0 where
  passed failed : TestStatus

abbrev pub test_status_name : TestStatus → String
test_status_name passed = "passed"
test_status_name failed = "failed"

pub data CurrentStateOperator : Type 0 where
  equals not_equals contains : CurrentStateOperator

abbrev pub operator_name : CurrentStateOperator → String
operator_name equals = "equals"
operator_name not_equals = "not_equals"
operator_name contains = "contains"

-- string | number | boolean
pub data Primitive : Type 0 where
  string : String → Primitive
  number : Number → Primitive
  boolean : Bool → Primitive

pub record HistoricalActionPredicate : Type 0 where
  pub action_verb : HistoricalActionVerb
  pub subject_type : String
  pub target_type : String
  pub capability_id : String
  pub required_receipt_type : String
  pub subject_id : Option String
  pub target_id : Option String

-- `requiredReceiptType` is always "test_run".
pub record TestResultPredicate : Type 0 where
  pub capability_id : String
  pub expected_status : TestStatus
  pub test_suite_id : Option String

-- `freshnessRequirementMs` is a positive integer by its schema.
pub record CurrentStatePredicate : Type 0 where
  pub subject_type : String
  pub subject_id : String
  pub property : String
  pub operator : CurrentStateOperator
  pub expected_value : Primitive
  pub observation_type : String
  pub freshness_requirement_ms : ℕ

-- The union that `kind` tells apart.
pub data ClaimPredicate : Type 0 where
  historical : HistoricalActionPredicate → ClaimPredicate
  test : TestResultPredicate → ClaimPredicate
  current : CurrentStatePredicate → ClaimPredicate

abbrev pub predicate_kind : ClaimPredicate → ClaimType
predicate_kind (historical p) = historical_action
predicate_kind (test p) = test_result
predicate_kind (current p) = current_state

pub data Criticality : Type 0 where
  low medium high critical : Criticality

-- The text of the constant.
abbrev pub criticality_name : Criticality → String
criticality_name Criticality.low = "low"
criticality_name Criticality.medium = "medium"
criticality_name Criticality.high = "high"
criticality_name Criticality.critical = "critical"

pub record Claim : Type 0 where
  pub claim_id : String
  pub type : ClaimType
  pub statement : String
  pub predicate : ClaimPredicate
  pub evidence_refs : List EvidenceRef
  pub criticality : Criticality

pub record FinalCandidate : Type 0 where
  pub candidate_id : String
  pub run_id : String
  pub claims : List Claim
  pub narrative_draft : Option String
