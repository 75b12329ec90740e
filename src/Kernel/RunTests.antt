-- ===== src/Kernel/RunTests.antt =====
-- The kernel of a run, and the theorems on it at a run that releases a candidate.
use mathlib.Core.List.{Memᴰ}
use amca_core.Common.{String, true, false, none, some, ◌≡◌, ◌≢◌, refl, [], ◌∷◌, ◌++◌}
use amca_core.Common.Outcome.{ok, err}
use amca_core.Protocol.Samples.{engine}
use amca_core.Protocol.Json.{obj}
use amca_core.Protocol.Evidence.{EvidenceKind}
use amca_core.Protocol.Payloads.{run_started, effect_requested}
use amca_core.Protocol.Approvals.{ApprovalGrant}
use amca_core.Protocol.Claims.{predicate_kind}
use amca_core.Proof.Samples.{input, open_claim, test_receipt, issue_observation}
use amca_core.Kernel.Events.{Event}
use amca_core.Kernel.ReleaseGate.Decisions.{is_released}
use amca_core.Kernel.Run.{RunKernel, contract_error, Check}
use amca_core.Kernel.Run.Append.{KernelEventOptions, no_options}
use amca_core.Kernel.Run.Commit.{state_revision}
use amca_core.Kernel.Run.Writes.{date_later}
use amca_core.Kernel.Run.Submit.{SubmitFinalCandidateResult, proof_input}
use amca_core.Kernel.Run.Session.{new_kernel, run_events, run_replay}
use amca_core.Kernel.Run.Steps.{IsRun, created, called}
use amca_core.Kernel.Run.Admitted.{AreBound, Requested, receipt_admitted, observation_admitted}
use amca_core.Kernel.Run.Approved.{SameScope, Answers, critical_writes_approved}
use amca_core.Kernel.Run.Matched.{SameWrite, Commits, Proposed, decisions_match, mutations-Proposed}
use amca_core.Protocol.Preflight.{WritePreflightCandidate}
use amca_core.Protocol.Mutations.{MutationCommandRequest, MutationCommitted}
use amca_core.Kernel.Run.Logs.{run_log_replays}
use amca_core.Kernel.Run.Reads.{ReadsReturn, run-ReadsReturn}
use amca_core.Kernel.Run.Revisions.{count, Numbered, revisions_count}
use amca_core.Kernel.Run.Released.{submission_decides}
use amca_core.Kernel.Run.Safety.{RestsOn, released_run_backed}
use amca_core.Kernel.Run.Outcomes.{Appended, Recorded, append_event_outcomes, record_event_outcomes}
use amca_core.Kernel.Run.Advances.{commit_advances}
use amca_core.Kernel.InMemoryLedger.Replay.{create-IsIntact}
use amca_core.Kernel.InMemoryLedger.Integrity.{IsIntact}
use amca_core.Kernel.RunSamples.{
  clock, fresh, requested, approved, proposed, admitted, options, outcome, mutation, decision,
  approval_grant, effect_request,
}
use amca_core.Common.{is_white_space, is_blank, join, decimal, sanitize_id_part}
use amca_core.Contracts.Canonical.{
  insert_entry, sort_entries, object_text, canonical_hash, insert_field, canonical_json, reparse,
}
use amca_core.Contracts.Sha256.{rotate_right, sha256_hex}
use amca_core.Contracts.Utf8.{utf8_bytes}
use amca_core.Ledger.Stream.{check_ordered_event, check_ordered_events, validate_ordered_run_events}
use amca_core.Kernel.Events.{
  assert_non_empty_id, assert_expected_sequence, event_le, hash_run_event_payload,
  clone_json_compatible, clone_run_event, clone_run_events, assert_payload_hash_matches,
  prepare_run_event, insert_event, order_events, check_event, check_events,
  order_and_validate_run_events, to_json_value,
}
use amca_core.Kernel.InMemoryLedger.{create, prepare, append, events}
use amca_core.Contracts.Schemas.{is_sha256_hash, is_safe_integer, is_safe_positive}
use amca_core.Proof.Predicates.{
  canonical_object_hash, payload_hash_holds, evidence_is_bound, receipt_is_admitted,
  observation_is_admitted, admitted_effect_receipts, admitted_external_state_observations, is_text,
  optional_payload_field_matches, test_result_receipt_matches, historical_action_receipt_matches,
  current_state_identity_matches, observation_is_fresh, strictly_equals,
  observed_value_is_comparable_primitive, observed_value_contains, observed_value_satisfies,
  observed_state_satisfies_predicate,
}
use amca_core.Proof.Resolver.{
  filter_evidence_refs_by_kind, evidence_refs_match, resolve_ref, resolve, resolve_effect_receipts,
  resolve_external_state_observations,
}
use amca_core.Proof.Mismatches.{build_blocking_mismatch, build_mismatch_id}
use amca_core.Proof.Evaluation.{
  supported_claim, rejected_claim, missing_evidence_claim, unverified_receipt_claim, unsupported,
  stale,
}
use amca_core.Proof.Engine.{
  claim_receipts, evaluate_receipt_claim, evaluate_test_result_claim,
  evaluate_historical_action_claim, claim_observations, evaluate_current_state_claim,
  evaluate_predicate, evaluate_claim, build_proof_id, evaluations_from, blocking_of, evaluate_proof,
}
use amca_core.Kernel.ReleaseGate.{
  blocking_mismatches, blocking_mismatch_ids_for_decision, repair_messages, quarantine_reason,
  released_decision, blocked_decision, needs_repair_decision, quarantined_decision,
  decide_blocked_release, decide_unblocked_release, decide_release,
}
use amca_core.Kernel.ReleaseGate.Render.{
  render_property, sentence_case, render_entity, render_value, render_test_result_claim,
  render_historical_action_claim, render_current_state_claim, render_approved_claim_predicate,
  render_approved_claims,
}
use amca_core.Contracts.Json.Approvals.{
  approval_scope_fields, approval_request_fields, approval_grant_fields, approval_denial_fields,
  approval_expiry_fields,
}
use amca_core.Contracts.Json.Claims.{
  historical_action_predicate_fields, test_result_predicate_fields, current_state_predicate_fields,
  claim_predicate_fields, claim_fields, final_candidate_fields,
}
use amca_core.Contracts.Json.Effects.{effect_request_fields, effect_receipt_fields}
use amca_core.Contracts.Json.Evidence.{evidence_ref_fields, external_state_observation_fields}
use amca_core.Contracts.Json.Mutations.{
  mutation_operation_fields, mutation_provenance_fields, mutation_command_request_fields,
  mutation_committed_fields, tool_command_request_fields, proposal_fields,
}
use amca_core.Contracts.Json.Payloads.{payload_fields}
use amca_core.Contracts.Json.Preflight.{
  write_preflight_candidate_fields, write_quarantine_state_fields, write_preflight_decision_fields,
}
use amca_core.Contracts.Json.Proofs.{
  mismatch_fields, claim_proof_fields, proof_object_fields, release_decision_fields,
}
use amca_core.Contracts.Schemas.Approvals.{
  approval_scope_schema, approval_request_schema, approval_grant_schema, approval_denial_schema,
  approval_expiry_schema,
}
use amca_core.Contracts.Schemas.Claims.{
  historical_action_predicate_schema, test_result_predicate_schema, primitive_schema,
  current_state_predicate_schema, claim_predicate_schema, claim_schema, final_candidate_schema,
}
use amca_core.Contracts.Schemas.Effects.{effect_request_schema, effect_receipt_schema}
use amca_core.Contracts.Schemas.Evidence.{evidence_ref_schema, external_state_observation_schema}
use amca_core.Contracts.Schemas.Mutations.{
  mutation_operation_schema, mutation_provenance_schema, mutation_command_request_schema,
  mutation_committed_schema, tool_command_request_schema, proposal_schema,
}
use amca_core.Contracts.Schemas.Payloads.{payload_schema, run_event_schema}
use amca_core.Contracts.Schemas.Preflight.{
  write_preflight_candidate_schema, write_quarantine_state_schema, verdict_schema,
  write_preflight_decision_schema,
}
use amca_core.Contracts.Schemas.Proofs.{
  mismatch_schema, claim_proof_schema, proof_object_schema, release_decision_schema,
}
use amca_core.Kernel.Run.{after}
use amca_core.Kernel.Run.Append.{
  next_event_id, with_default_causation, assert_started, assert_input_run_id,
  assert_event_references, assert_event_payload_hash, append_event, record_event,
}
use amca_core.Kernel.Run.Guards.{
  entry, mutation_command_hash_payload, mutation_committed_hash_payload, same_hash, assert_hash,
  assert_mutation_command_payload_hash, assert_mutation_was_proposed,
  assert_effect_request_for_receipt, assert_payload_hash, assert_admitted_evidence_refs,
}
use amca_core.Kernel.Run.Writes.{
  write_preflight_candidate_by_id, write_preflight_approval_scope, candidate_is_decided,
  candidate_is_quarantined, assert_write_preflight_decision_matches_request, same_approval_scope,
  assert_write_quarantine_matches_decision, assert_approval, assert_critical_write_approval,
  assert_approval_matches_request,
}
use amca_core.Kernel.Run.Record.{
  tool_command_guard, mutation_command_guard, effect_request_guard, candidate_guard, decision_guard,
  quarantine_guard, approval_request_guard, grant_guard, denial_guard, expiry_guard, receipt_guard,
  observation_guard, start_run, submit_tool_command, submit_mutation_command, record_effect_request,
  record_write_preflight_requested, record_write_preflight_decided, record_write_quarantined,
  record_approval_requested, record_approval_granted, record_approval_denied,
  record_approval_expired, record_effect_receipt, record_external_state_observation,
}
use amca_core.Kernel.Run.Commit.{committed_mutation, commit_guard, commit_mutation}
use amca_core.Kernel.Run.Submit.{
  emitted_events, final_candidate_guard, record_mismatches, prove_and_release,
  submit_final_candidate,
}
use amca_core.Kernel.Run.Steps.{after_call}
use amca_core.Contracts.Canonical.Copies.{is_json, is_json_fields}

fresh_made : new_kernel engine "run_1" ≡ ok fresh
unfolding new_kernel create is_blank
fresh_made = refl

approved-IsRun : IsRun engine clock approved
approved-IsRun = called _ _ (
    called _ _
      (called _ _ (called _ _ (called _ _ (called _ _ (created "run_1" fresh fresh_made))))))

admitted-IsRun : IsRun engine clock admitted
admitted-IsRun = called _ _ (called _ _ (called _ _ (called _ _ approved-IsRun)))

-- An event that its schema refuses is in the log of a kernel that threw.
abbrev untimely : KernelEventOptions
untimely = record no_options { occurred_at = some "yesterday" }

abbrev refusal : Check Event × RunKernel
refusal = append_event engine clock (run_started "run_1" none none) untimely fresh

-- What the run computes to.
run_facts :
    (result : SubmitFinalCandidateResult) × (event : Event) × (committed : MutationCommitted)
    × (outcome ≡ ok result)
    × (is_released result.decision ≡ true)
    × Memᴰ test_receipt admitted.effect_receipts
    × Memᴰ issue_observation admitted.external_state_observations
    × Memᴰ decision approved.write_preflight_decisions
    × Memᴰ approval_grant approved.approval_grants
    × ((commit_mutation engine clock mutation no_options proposed).0 ≡ ok event)
    × Memᴰ committed admitted.mutations
    × (refusal.0 ≡ err contract_error)
    × (refusal.1.ledger.event_ids ≡ "evt_run_1_0001_RunStarted" ∷ [])
unfolding is_white_space is_blank join decimal sanitize_id_part insert_entry sort_entries
    object_text canonical_hash insert_field canonical_json reparse rotate_right sha256_hex
    utf8_bytes check_ordered_event check_ordered_events validate_ordered_run_events
    assert_non_empty_id assert_expected_sequence event_le hash_run_event_payload
    clone_json_compatible clone_run_event clone_run_events assert_payload_hash_matches
    prepare_run_event insert_event order_events check_event check_events
    order_and_validate_run_events to_json_value create prepare append events is_sha256_hash
    is_safe_integer is_safe_positive canonical_object_hash payload_hash_holds evidence_is_bound
    receipt_is_admitted observation_is_admitted admitted_effect_receipts
    admitted_external_state_observations is_text optional_payload_field_matches
    test_result_receipt_matches historical_action_receipt_matches current_state_identity_matches
    observation_is_fresh strictly_equals observed_value_is_comparable_primitive
    observed_value_contains observed_value_satisfies observed_state_satisfies_predicate
    filter_evidence_refs_by_kind evidence_refs_match resolve_ref resolve resolve_effect_receipts
    resolve_external_state_observations build_blocking_mismatch build_mismatch_id supported_claim
    rejected_claim missing_evidence_claim unverified_receipt_claim unsupported stale claim_receipts
    evaluate_receipt_claim evaluate_test_result_claim evaluate_historical_action_claim
    claim_observations evaluate_current_state_claim evaluate_predicate evaluate_claim build_proof_id
    evaluations_from blocking_of evaluate_proof blocking_mismatches
    blocking_mismatch_ids_for_decision repair_messages quarantine_reason released_decision
    blocked_decision needs_repair_decision quarantined_decision decide_blocked_release
    decide_unblocked_release decide_release render_property sentence_case render_entity render_value
    render_test_result_claim render_historical_action_claim render_current_state_claim
    render_approved_claim_predicate render_approved_claims approval_scope_fields
    approval_request_fields approval_grant_fields approval_denial_fields approval_expiry_fields
    historical_action_predicate_fields test_result_predicate_fields current_state_predicate_fields
    claim_predicate_fields claim_fields final_candidate_fields effect_request_fields
    effect_receipt_fields evidence_ref_fields external_state_observation_fields
    mutation_operation_fields mutation_provenance_fields mutation_command_request_fields
    mutation_committed_fields tool_command_request_fields proposal_fields payload_fields
    write_preflight_candidate_fields write_quarantine_state_fields write_preflight_decision_fields
    mismatch_fields claim_proof_fields proof_object_fields release_decision_fields
    approval_scope_schema approval_request_schema approval_grant_schema approval_denial_schema
    approval_expiry_schema historical_action_predicate_schema test_result_predicate_schema
    primitive_schema current_state_predicate_schema claim_predicate_schema claim_schema
    final_candidate_schema effect_request_schema effect_receipt_schema evidence_ref_schema
    external_state_observation_schema mutation_operation_schema mutation_provenance_schema
    mutation_command_request_schema mutation_committed_schema tool_command_request_schema
    proposal_schema payload_schema run_event_schema write_preflight_candidate_schema
    write_quarantine_state_schema verdict_schema write_preflight_decision_schema mismatch_schema
    claim_proof_schema proof_object_schema release_decision_schema after next_event_id
    with_default_causation assert_started assert_input_run_id assert_event_references
    assert_event_payload_hash append_event record_event entry mutation_command_hash_payload
    mutation_committed_hash_payload same_hash assert_hash assert_mutation_command_payload_hash
    assert_mutation_was_proposed assert_effect_request_for_receipt assert_payload_hash
    assert_admitted_evidence_refs write_preflight_candidate_by_id write_preflight_approval_scope
    candidate_is_decided candidate_is_quarantined assert_write_preflight_decision_matches_request
    same_approval_scope assert_write_quarantine_matches_decision assert_approval
    assert_critical_write_approval assert_approval_matches_request tool_command_guard
    mutation_command_guard effect_request_guard candidate_guard decision_guard quarantine_guard
    approval_request_guard grant_guard denial_guard expiry_guard receipt_guard observation_guard
    start_run submit_tool_command submit_mutation_command record_effect_request
    record_write_preflight_requested record_write_preflight_decided record_write_quarantined
    record_approval_requested record_approval_granted record_approval_denied record_approval_expired
    record_effect_receipt record_external_state_observation committed_mutation commit_guard
    commit_mutation emitted_events final_candidate_guard record_mismatches prove_and_release
    submit_final_candidate after_call is_json is_json_fields
run_facts = (
  _,
  _,
  _,
  refl,
  refl,
  Memᴰ.head refl,
  Memᴰ.head refl,
  Memᴰ.head refl,
  Memᴰ.head refl,
  refl,
  Memᴰ.head refl,
  refl,
  refl,
)

abbrev push_request : RunKernel → RunKernel
push_request k = record k { effect_requests = k.effect_requests ++ effect_request ∷ [] }

released_run_backed_example :
    (open_claim.type ≡ predicate_kind open_claim.predicate)
    × RestsOn engine admitted "2026-01-01T00:00:01.000Z" open_claim.predicate
released_run_backed_example =
    released_run_backed engine clock admitted admitted-IsRun input.candidate options run_facts.0
      run_facts.3 run_facts.4 open_claim (Memᴰ.tail (Memᴰ.head refl))

submission_decides_example :
    let proof_of = proof_input input.candidate options "2026-01-01T00:00:01.000Z" admitted in
    (run_facts.0.proof ≡ evaluate_proof engine proof_of)
    × (run_facts.0.decision
        ≡ decide_release engine
            (record { candidate = input.candidate; proof = evaluate_proof engine proof_of }))
    × (input.candidate.run_id ≡ admitted.run_id)
submission_decides_example =
    submission_decides engine clock input.candidate options admitted run_facts.0 run_facts.3

receipt_admitted_example :
    (test_receipt.run_id ≡ admitted.run_id)
    × Requested admitted test_receipt
    × (canonical_hash engine (obj test_receipt.payload) ≡ ok test_receipt.payload_hash)
    × AreBound test_receipt.evidence EvidenceKind.effect_receipt test_receipt.payload_hash
receipt_admitted_example =
    receipt_admitted engine clock admitted admitted-IsRun test_receipt run_facts.5

observation_admitted_example :
    (issue_observation.run_id ≡ admitted.run_id)
    × (canonical_hash engine (obj issue_observation.observed_state)
        ≡ ok issue_observation.payload_hash)
    × AreBound issue_observation.evidence EvidenceKind.external_observation
        issue_observation.payload_hash
observation_admitted_example =
    observation_admitted engine clock admitted admitted-IsRun issue_observation run_facts.6

critical_writes_approved_example :
    (grant : ApprovalGrant) × Memᴰ grant approved.approval_grants
    × (some "app_1" ≡ some grant.approval_id)
    × SameScope engine grant.scope (write_preflight_approval_scope decision)
    × (date_later (engine.date_parse decision.decided_at) (engine.date_parse grant.expires_at)
        ≡ false)
    × Answers engine approved grant
critical_writes_approved_example =
    critical_writes_approved engine clock approved approved-IsRun decision (some "app_1")
      run_facts.7 refl refl

run_log_replays_example :
    (run_events engine admitted ≡ ok admitted.ledger.events)
    × (run_replay engine admitted ≡ ok admitted.ledger.events)
    × (create engine admitted.ledger.run_id (some admitted.ledger.events) ≡ ok admitted.ledger)
run_log_replays_example = run_log_replays engine clock admitted admitted-IsRun

run-ReadsReturn_example : ReadsReturn engine admitted
run-ReadsReturn_example = run-ReadsReturn engine clock admitted admitted-IsRun

revisions_count_example :
    ((ref : String) → state_revision admitted ref ≡ count ref admitted.mutations)
    × Numbered [] admitted.mutations
revisions_count_example = revisions_count engine clock admitted admitted-IsRun

commit_advances_example :
    let after_commit = (commit_mutation engine clock mutation no_options proposed).1 in
    (0 ≡ state_revision proposed "notes")
    × (state_revision after_commit "notes" ≡ 1)
    × ((ref : String)
        → ref ≢ "notes"
        → state_revision after_commit ref ≡ state_revision proposed ref)
commit_advances_example =
    commit_advances engine clock mutation no_options proposed run_facts.1 run_facts.9

-- A log that just was made.
fresh-IsIntact : IsIntact engine fresh.ledger
unfolding create is_blank
fresh-IsIntact = create-IsIntact engine "run_1" none fresh.ledger refl

append_event_outcomes_example :
    Appended engine
      (run_started "run_1" none none)
      fresh.ledger
      (append_event engine clock (run_started "run_1" none none) untimely fresh)
append_event_outcomes_example =
    append_event_outcomes engine clock (run_started "run_1" none none) untimely fresh fresh-IsIntact

decisions_match_example :
    (candidate : WritePreflightCandidate) × Memᴰ candidate approved.write_preflight_candidates
    × SameWrite candidate decision
decisions_match_example = decisions_match engine clock approved approved-IsRun decision run_facts.7

mutations-Proposed_example :
    (command : MutationCommandRequest) × Commits command run_facts.2
    × Proposed engine admitted command
mutations-Proposed_example =
    mutations-Proposed engine clock admitted admitted-IsRun run_facts.2 run_facts.10

record_event_outcomes_example :
    Recorded (effect_request_guard engine effect_request requested) push_request requested (
      record_event engine clock
        (effect_request_guard engine effect_request)
        (effect_requested effect_request)
        untimely
        push_request
        requested)
record_event_outcomes_example =
    record_event_outcomes engine clock (effect_request_guard engine effect_request)
      (effect_requested effect_request) untimely push_request requested
