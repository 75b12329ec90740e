-- ===== src/Contracts/Json/Claims.antt =====
-- packages/protocol/src/claims.ts: the objects as JSON values, with their fields in the order of their schemas.
use amca_core.Common.{}
use amca_core.Protocol.Claims.{
  claim_type_name, verb_name, test_status_name, operator_name, Primitive, HistoricalActionPredicate,
  TestResultPredicate, CurrentStatePredicate, ClaimPredicate, criticality_name, Claim,
  FinalCandidate, string, number, boolean, historical, test, current,
}
use amca_core.Protocol.Json.{nat, Value, Fields, bool, num, str, obj, end, field}
use amca_core.Contracts.Json.{optional, list_json}
use amca_core.Contracts.Json.Evidence.{evidence_ref_fields}

unfoldable pub historical_action_predicate_fields : HistoricalActionPredicate → Fields
historical_action_predicate_fields x = field "kind" (str "historical_action") (
    field "actionVerb" (str (verb_name x.action_verb)) (
      field "subjectType" (str x.subject_type) (
        field "targetType" (str x.target_type) (
          field "capabilityId" (str x.capability_id) (
            field "requiredReceiptType" (str x.required_receipt_type)
              (optional str "subjectId" x.subject_id (optional str "targetId" x.target_id end)))))))

unfoldable pub test_result_predicate_fields : TestResultPredicate → Fields
test_result_predicate_fields x = field "kind" (str "test_result") (
    field "capabilityId" (str x.capability_id) (
      field "expectedStatus" (str (test_status_name x.expected_status)) (
        field "requiredReceiptType" (str "test_run")
          (optional str "testSuiteId" x.test_suite_id end))))

abbrev pub primitive_json : Primitive → Value
primitive_json (string s) = str s
primitive_json (number n) = num n
primitive_json (boolean b) = bool b

unfoldable pub current_state_predicate_fields : CurrentStatePredicate → Fields
current_state_predicate_fields x = field "kind" (str "current_state") (
    field "subjectType" (str x.subject_type) (
      field "subjectId" (str x.subject_id) (
        field "property" (str x.property) (
          field "operator" (str (operator_name x.operator)) (
            field "expectedValue" (primitive_json x.expected_value) (
              field "observationType" (str x.observation_type)
                (field "freshnessRequirementMs" (num (nat x.freshness_requirement_ms)) end)))))))

unfoldable pub claim_predicate_fields : ClaimPredicate → Fields
unfolding historical_action_predicate_fields test_result_predicate_fields
    current_state_predicate_fields
claim_predicate_fields (historical p) = historical_action_predicate_fields p
claim_predicate_fields (test p) = test_result_predicate_fields p
claim_predicate_fields (current p) = current_state_predicate_fields p

unfoldable pub claim_fields : Claim → Fields
claim_fields x = field "claimId" (str x.claim_id) (
    field "type" (str (claim_type_name x.type)) (
      field "statement" (str x.statement) (
        field "predicate" (obj (claim_predicate_fields x.predicate)) (
          field "evidenceRefs" (list_json (λ y. obj (evidence_ref_fields y)) x.evidence_refs)
            (field "criticality" (str (criticality_name x.criticality)) end)))))

unfoldable pub final_candidate_fields : FinalCandidate → Fields
final_candidate_fields x = field "kind" (str "final_candidate") (
    field "candidateId" (str x.candidate_id) (
      field "runId" (str x.run_id) (
        field "claims" (list_json (λ y. obj (claim_fields y)) x.claims)
          (optional str "narrativeDraft" x.narrative_draft end))))
