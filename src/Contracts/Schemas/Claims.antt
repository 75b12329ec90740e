-- ===== src/Contracts/Schemas/Claims.antt =====
-- packages/contracts/src/schemas.ts: the schemas of packages/protocol/src/claims.ts, on values of their types.
use amca_core.Common.{Bool, true, not, ◌&&◌, all}
use amca_core.Common.Equality.{◌==◌, string_has_eq}
use amca_core.Protocol.Claims.{
  Primitive, HistoricalActionPredicate, TestResultPredicate, CurrentStatePredicate, ClaimPredicate,
  predicate_kind, Claim, FinalCandidate, string, number, boolean, historical, test, current,
}
use amca_core.Protocol.Json.{is_finite}
use amca_core.Protocol.Claims.{claim_type_has_eq}
use amca_core.Protocol.Host.{Host}
use amca_core.Contracts.Schemas.{non_empty, optionally, is_safe_positive, is_nil}
use amca_core.Contracts.Schemas.Evidence.{evidence_ref_schema}

module _ (host : Host) where
  unfoldable pub historical_action_predicate_schema : HistoricalActionPredicate → Bool
  historical_action_predicate_schema x =
      non_empty x.subject_type
      && (non_empty x.target_type
          && (non_empty x.capability_id
              && (non_empty x.required_receipt_type
                  && (optionally non_empty x.subject_id && (optionally non_empty x.target_id)))))

  unfoldable pub test_result_predicate_schema : TestResultPredicate → Bool
  test_result_predicate_schema x =
      non_empty x.capability_id && (optionally non_empty x.test_suite_id)

  unfoldable pub primitive_schema : Primitive → Bool
  primitive_schema (string s) = true
  primitive_schema (number n) = is_finite n
  primitive_schema (boolean b) = true

  unfoldable pub current_state_predicate_schema : CurrentStatePredicate → Bool
  current_state_predicate_schema x =
      non_empty x.subject_type
      && (non_empty x.subject_id
          && (non_empty x.property
              && (primitive_schema x.expected_value
                  && (non_empty x.observation_type
                      && (is_safe_positive x.freshness_requirement_ms)))))

  unfoldable pub claim_predicate_schema : ClaimPredicate → Bool
  unfolding historical_action_predicate_schema test_result_predicate_schema
      current_state_predicate_schema
  claim_predicate_schema (historical p) = historical_action_predicate_schema p
  claim_predicate_schema (test p) = test_result_predicate_schema p
  claim_predicate_schema (current p) = current_state_predicate_schema p

  unfoldable pub claim_schema : Claim → Bool
  claim_schema x =
      non_empty x.claim_id
      && (non_empty x.statement
          && (claim_predicate_schema x.predicate
              && (all (evidence_ref_schema host) x.evidence_refs
                  && (x.type == predicate_kind x.predicate))))

  unfoldable pub final_candidate_schema : FinalCandidate → Bool
  final_candidate_schema x =
      non_empty x.candidate_id
      && (non_empty x.run_id
          && (not (is_nil x.claims)
              && (all claim_schema x.claims && (optionally non_empty x.narrative_draft))))
