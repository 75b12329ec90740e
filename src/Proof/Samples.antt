-- ===== src/Proof/Samples.antt =====
-- A candidate of two claims, and the receipt and the observation that they refer to.
use amca_core.Common.{String, none, some, [], ◌∷◌}
use amca_core.Protocol.Json.{str, end, field}
use amca_core.Protocol.Evidence.{
  EvidenceRef, ExternalStateObservation, effect_receipt, external_observation, internal,
}
use amca_core.Protocol.Effects.{EffectReceipt, succeeded}
use amca_core.Protocol.Claims.{
  Claim, TestResultPredicate, CurrentStatePredicate, test, current, test_result, current_state,
  passed, equals, string, medium,
}
use amca_core.Proof.Evaluation.{ProofEvaluationInput}

abbrev receipt_hash : String
receipt_hash = "sha256:82fa186e36dfbf76c842e1733ace258db0b041f9e026f33581131eb97f5efe78"

abbrev state_hash : String
state_hash = "sha256:f84509a77aa28abf2c48ebbbeeaf7e2ea3838bf33dd41a4d4ebcd6235a9a2684"

abbrev receipt_ref : EvidenceRef
receipt_ref = record {
  admission_status = none;
  evidence_id = "ev_1";
  kind = effect_receipt;
  source_event_id = "evt_7";
  hash = receipt_hash;
  observed_at = "2026-01-01T00:00:00.000Z";
  sensitivity = internal;
  artifact_uri = none;
  expires_at = none;
  metadata = none;
}

abbrev observation_ref : EvidenceRef
observation_ref = record {
  admission_status = none;
  evidence_id = "ev_2";
  kind = external_observation;
  source_event_id = "evt_8";
  hash = state_hash;
  observed_at = "2026-01-01T00:00:00.000Z";
  sensitivity = internal;
  artifact_uri = none;
  expires_at = none;
  metadata = none;
}

abbrev pub test_receipt : EffectReceipt
test_receipt = record {
  receipt_id = "rcpt_1";
  effect_id = "eff_1";
  run_id = "run_1";
  capability_id = "tests.run";
  receipt_type = "test_run";
  status = succeeded;
  payload = field "result" (str "passed") end;
  payload_hash = receipt_hash;
  evidence = receipt_ref ∷ [];
  observed_at = "2026-01-01T00:00:00.000Z";
  external_ref = none;
}

abbrev pub issue_observation : ExternalStateObservation
issue_observation = record {
  observation_id = "obs_1";
  run_id = "run_1";
  observation_type = "issue";
  subject_type = "issue";
  subject_id = "42";
  observed_state = field "state" (str "open") end;
  observed_at = "2026-01-01T00:00:00.000Z";
  expires_at = "2026-01-01T00:00:01.000Z";
  payload_hash = state_hash;
  evidence = observation_ref ∷ [];
}

abbrev pub passed_predicate : TestResultPredicate
passed_predicate = record {
  capability_id = "tests.run";
  expected_status = passed;
  test_suite_id = none;
}

abbrev pub open_predicate : CurrentStatePredicate
open_predicate = record {
  subject_type = "issue";
  subject_id = "42";
  property = "state";
  operator = equals;
  expected_value = string "open";
  observation_type = "issue";
  freshness_requirement_ms = 1000;
}

abbrev pub passed_claim : Claim
passed_claim = record {
  claim_id = "claim_1";
  type = test_result;
  statement = "the tests passed";
  predicate = test passed_predicate;
  evidence_refs = receipt_ref ∷ [];
  criticality = medium;
}

abbrev pub open_claim : Claim
open_claim = record {
  claim_id = "claim_2";
  type = current_state;
  statement = "the issue is open";
  predicate = current open_predicate;
  evidence_refs = observation_ref ∷ [];
  criticality = medium;
}

abbrev pub input : ProofEvaluationInput
input = record {
  candidate = record {
    candidate_id = "cand_1";
    run_id = "run_1";
    claims = passed_claim ∷ open_claim ∷ [];
    narrative_draft = none;
  };
  effect_receipts = test_receipt ∷ [];
  external_state_observations = issue_observation ∷ [];
  generated_at = "2026-01-01T00:00:01.000Z";
  proof_id = some "proof_1";
}
