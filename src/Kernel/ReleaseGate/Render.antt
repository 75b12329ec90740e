-- ===== src/Kernel/ReleaseGate/Render.antt =====
-- packages/kernel/src/release-gate.ts: the text of the approved claims.
use Prim.Native.Char.{code}
use amca_core.Common.{
  ℕ, String, Bool, true, false, ◌&&◌, ◌||◌, Option, none, some, List, [], ◌∷◌, map, filter, any,
  if◌then◌else◌, nat_eq, leb, is_blank, ◌+s◌, join,
}
use amca_core.Common.Equality.{◌==◌, string_has_eq}
use amca_core.Protocol.Host.{Host}
use amca_core.Protocol.Claims.{
  ClaimPredicate, FinalCandidate, HistoricalActionPredicate, TestResultPredicate,
  CurrentStatePredicate, CurrentStateOperator, equals, not_equals, contains, TestStatus, passed,
  failed, Primitive, string, number, boolean, historical, test, current, verb_name,
}

abbrev is_separator : ℕ → Bool
is_separator c = nat_eq c b'_' || nat_eq c b'-'

-- `value.replace(/[_-]+/gu, " ")`: one space for each run; `in_run` tells that the run's space is out.
replace_runs : Bool → String → String
replace_runs in_run String.[] = ""
replace_runs in_run (String.◌∷◌ c s) =
    (if is_separator (code c) then (if in_run then "" else " ") else String.◌∷◌ c "")
    +s replace_runs (is_separator (code c)) s

unfoldable pub render_property : String → String
unfolding replace_runs
render_property = replace_runs false

module _ (host : Host) where
  -- The first UTF-16 unit in upper case: half of a pair stays as it is.
  unfoldable pub sentence_case : String → String
  sentence_case String.[] = ""
  sentence_case (String.◌∷◌ c s) =
      if leb (code c) 0xffff then host.to_upper_case (String.◌∷◌ c "") +s s else String.◌∷◌ c s

  abbrev with_id : String → Option String → String
  with_id label none = label
  with_id label (some id) = if is_blank id then label else label +s " " +s id

  unfoldable pub render_entity : String → Option String → String
  unfolding sentence_case render_property
  render_entity type id = with_id (sentence_case (render_property type)) id

  -- The schema of a predicate lets in finite numbers only, on which `String` and JSON agree.
  unfoldable pub render_value : Primitive → String
  render_value (string s) = s
  render_value (number n) = host.number_to_json n
  render_value (boolean b) = if b then "true" else "false"

  abbrev render_operator : CurrentStateOperator → String
  render_operator equals = "equals"
  render_operator not_equals = "does not equal"
  render_operator contains = "contains"

  abbrev status_text : TestStatus → String
  status_text passed = "passed"
  status_text failed = "failed"

  abbrev test_text : Option String → String → String
  test_text none status = "Tests " +s status +s "."
  test_text (some suite) status = "Test suite " +s suite +s " " +s status +s "."

  unfoldable pub render_test_result_claim : TestResultPredicate → String
  render_test_result_claim predicate =
      test_text predicate.test_suite_id (status_text predicate.expected_status)

  unfoldable pub render_historical_action_claim : HistoricalActionPredicate → String
  unfolding render_entity
  render_historical_action_claim predicate =
      render_entity predicate.target_type predicate.target_id
      +s " was "
      +s verb_name predicate.action_verb
      +s "."

  abbrev is_equals : CurrentStateOperator → Bool
  is_equals equals = true
  is_equals _ = false

  unfoldable pub render_current_state_claim : CurrentStatePredicate → String
  unfolding render_entity render_value
  render_current_state_claim predicate =
      let subject = render_entity predicate.subject_type (some predicate.subject_id) in
      let expected_value = render_value predicate.expected_value in
      if predicate.property == "state" && is_equals predicate.operator
      then subject +s " is currently " +s expected_value +s "."
      else subject
        +s " "
        +s render_property predicate.property
        +s " "
        +s render_operator predicate.operator
        +s " "
        +s expected_value
        +s "."

  unfoldable pub render_approved_claim_predicate : ClaimPredicate → String
  unfolding render_historical_action_claim render_test_result_claim render_current_state_claim
  render_approved_claim_predicate (test predicate) = render_test_result_claim predicate
  render_approved_claim_predicate (historical predicate) = render_historical_action_claim predicate
  render_approved_claim_predicate (current predicate) = render_current_state_claim predicate

  -- `renderedClaims.length === 0 ? undefined : renderedClaims.join("\n")`
  abbrev pub message_of : List String → Option String
  message_of [] = none
  message_of (line ∷ lines) = some (join "\n" (line ∷ lines))

  unfoldable pub render_approved_claims : FinalCandidate → List String → Option String
  render_approved_claims candidate approved_claim_ids = message_of (
      map (λ claim. render_approved_claim_predicate claim.predicate)
        (filter (λ claim. any (λ id. id == claim.claim_id) approved_claim_ids) candidate.claims))
