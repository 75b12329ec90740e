-- ===== src/Proof/Predicates.antt =====
-- packages/proof/src/proof-engine.ts: which evidence is admitted, and when a receipt or an observation
-- satisfies the predicate of a claim.
use text.Mathlib.Text.{find?}
use amca_core.Common.{
  ℕ, ◌-◌, String, Bool, true, false, not, ◌&&◌, ◌||◌, Option, none, some, List, filter, all, leb,
}
use amca_core.Common.Equality.{◌==◌, string_has_eq, option_has_eq}
use amca_core.Common.Outcome.{Result, ok, err}
use amca_core.Protocol.Json.{
  Value, Items, Fields, bool, num, str, arr, obj, nil, cons, get_field, number_eq, bool_eq,
}
use amca_core.Protocol.Host.{Host}
use amca_core.Protocol.Evidence.{
  EvidenceKind, EvidenceRef, ExternalStateObservation, effect_receipt, external_observation,
  evidence_kind_has_eq,
}
use amca_core.Protocol.Effects.{EffectReceipt, succeeded, effect_status_has_eq}
use amca_core.Protocol.Claims.{
  HistoricalActionPredicate, TestResultPredicate, CurrentStatePredicate, CurrentStateOperator,
  Primitive, equals, not_equals, contains, string, number, boolean, verb_name, test_status_name,
}
use amca_core.Contracts.Canonical.{canonical_hash}

abbrev hash_or_none : {E : Type 0} → Result E String → Option String
hash_or_none (ok h) = some h
hash_or_none (err e) = none

module _ (host : Host) where
  -- canonicalObjectHash. `none` where it throws, which is on what is no JSON: the schemas of receipts
  -- and observations let no such payload in.
  unfoldable pub canonical_object_hash : Fields → Option String
  canonical_object_hash fields = hash_or_none (canonical_hash host (obj fields))

  -- `payloadHash === canonicalObjectHash(payload)`
  unfoldable pub payload_hash_holds : String → Fields → Bool
  payload_hash_holds payload_hash fields = some payload_hash == canonical_object_hash fields

-- Every reference of a source has the kind of the source and the hash of its payload.
unfoldable pub evidence_is_bound : EvidenceKind → String → List EvidenceRef → Bool
evidence_is_bound kind payload_hash =
    all (λ evidence_ref. evidence_ref.kind == kind && evidence_ref.hash == payload_hash)

module _ (host : Host) (run_id : String) where
  unfoldable pub receipt_is_admitted : EffectReceipt → Bool
  receipt_is_admitted receipt =
      receipt.run_id == run_id
      && (payload_hash_holds host receipt.payload_hash receipt.payload
          && evidence_is_bound effect_receipt receipt.payload_hash receipt.evidence)

  unfoldable pub observation_is_admitted : ExternalStateObservation → Bool
  observation_is_admitted observation =
      observation.run_id == run_id
      && (payload_hash_holds host observation.payload_hash observation.observed_state
          && evidence_is_bound external_observation observation.payload_hash observation.evidence)

  unfoldable pub admitted_effect_receipts : List EffectReceipt → List EffectReceipt
  admitted_effect_receipts = filter receipt_is_admitted

  unfoldable pub admitted_external_state_observations :
      List ExternalStateObservation → List ExternalStateObservation
  admitted_external_state_observations = filter observation_is_admitted

-- `payload[field] === expected` for a text
unfoldable pub is_text : Option Value → String → Bool
is_text (some (str s)) expected = s == expected
is_text _ expected = false

unfoldable pub optional_payload_field_matches : EffectReceipt → String → Option String → Bool
optional_payload_field_matches receipt field none = true
optional_payload_field_matches receipt field (some expected) =
    is_text (get_field receipt.payload field) expected

unfoldable pub test_result_receipt_matches : EffectReceipt → TestResultPredicate → Bool
test_result_receipt_matches receipt predicate =
    receipt.receipt_type == "test_run"
    && (receipt.status == succeeded
        && (receipt.capability_id == predicate.capability_id
            && (is_text (get_field receipt.payload "result")
                  (test_status_name predicate.expected_status)
                && optional_payload_field_matches receipt "testSuiteId" predicate.test_suite_id)))

unfoldable pub historical_action_receipt_matches : EffectReceipt → HistoricalActionPredicate → Bool
historical_action_receipt_matches receipt predicate =
    receipt.receipt_type == predicate.required_receipt_type
    && (receipt.status == succeeded
        && (receipt.capability_id == predicate.capability_id
            && (is_text (get_field receipt.payload "actionVerb") (verb_name predicate.action_verb)
                && (is_text (get_field receipt.payload "subjectType") predicate.subject_type
                    && (is_text (get_field receipt.payload "targetType") predicate.target_type
                        && (optional_payload_field_matches receipt "subjectId" predicate.subject_id
                            && optional_payload_field_matches receipt "targetId"
                                predicate.target_id))))))

unfoldable pub current_state_identity_matches :
    ExternalStateObservation → CurrentStatePredicate → Bool
current_state_identity_matches observation predicate =
    observation.observation_type == predicate.observation_type
    && (observation.subject_type == predicate.subject_type
        && observation.subject_id == predicate.subject_id)

-- The age is not negative and at most the requirement. A time that does not parse is not fresh.
abbrev age_is_fresh : Option ℕ → ℕ → Option ℕ → Bool
age_is_fresh (some observed_at_ms) freshness_requirement_ms (some generated_at_ms) =
    leb observed_at_ms generated_at_ms
    && leb (generated_at_ms - observed_at_ms) freshness_requirement_ms
age_is_fresh _ freshness_requirement_ms _ = false

unfoldable pub observation_is_fresh : Host → ExternalStateObservation → ℕ → String → Bool
observation_is_fresh host observation freshness_requirement_ms generated_at =
    age_is_fresh (host.date_parse observation.observed_at) freshness_requirement_ms
      (host.date_parse generated_at)

-- `observedValue === expectedValue`
unfoldable pub strictly_equals : Value → Primitive → Bool
strictly_equals (str s) (string t) = s == t
strictly_equals (num n) (number m) = number_eq n m
strictly_equals (bool b) (boolean c) = bool_eq b c
strictly_equals _ _ = false

unfoldable pub observed_value_is_comparable_primitive : Value → Bool
observed_value_is_comparable_primitive (str s) = true
observed_value_is_comparable_primitive (num n) = true
observed_value_is_comparable_primitive (bool b) = true
observed_value_is_comparable_primitive _ = false

abbrev is_found : Option ℕ → Bool
is_found none = false
is_found (some i) = true

-- `items.some((item) => item === expectedValue)`
some_item_equals : Items → Primitive → Bool
some_item_equals nil expected = false
some_item_equals (cons x xs) expected = strictly_equals x expected || some_item_equals xs expected

unfoldable pub observed_value_contains : Value → Primitive → Bool
unfolding some_item_equals
observed_value_contains (str s) (string t) = is_found (find? s t)
observed_value_contains (arr xs) expected = some_item_equals xs expected
observed_value_contains _ expected = false

unfoldable pub observed_value_satisfies : Value → CurrentStateOperator → Primitive → Bool
observed_value_satisfies observed equals expected =
    observed_value_is_comparable_primitive observed && strictly_equals observed expected
observed_value_satisfies observed not_equals expected =
    observed_value_is_comparable_primitive observed && not (strictly_equals observed expected)
observed_value_satisfies observed contains expected = observed_value_contains observed expected

-- `if (observedValue === undefined) return false`
abbrev satisfies_if_observed : Option Value → CurrentStateOperator → Primitive → Bool
satisfies_if_observed none operator expected = false
satisfies_if_observed (some observed) operator expected =
    observed_value_satisfies observed operator expected

unfoldable pub observed_state_satisfies_predicate :
    ExternalStateObservation → CurrentStatePredicate → Bool
observed_state_satisfies_predicate observation predicate =
    satisfies_if_observed (get_field observation.observed_state predicate.property)
      predicate.operator predicate.expected_value
