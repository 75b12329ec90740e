-- ===== src/Kernel/Run/Record.antt =====
-- packages/kernel/src/run-kernel.ts: the methods that record an input. `clock n` is what the clock returns
-- when it is read for the n-th time, counted from 0.
use amca_core.Common.{ℕ, String, Bool, Option, none, some, ◌∷◌, [], ◌++◌}
use amca_core.Common.Outcome.{ok, err}
use amca_core.Common.Outcome as Outcome
use amca_core.Protocol.Json.{Fields}
use amca_core.Protocol.Host.{Host}
use amca_core.Protocol.Evidence.{ExternalStateObservation, EvidenceKind}
use amca_core.Protocol.Effects.{EffectRequest, EffectReceipt}
use amca_core.Protocol.Preflight.{
  WritePreflightCandidate, WritePreflightDecision, WriteQuarantineState,
}
use amca_core.Protocol.Approvals.{ApprovalRequest, ApprovalGrant, ApprovalDenial, ApprovalExpiry}
use amca_core.Protocol.Mutations.{
  MutationCommandRequest, ToolCommandRequest, tool_command, mutation_command,
}
use amca_core.Protocol.Payloads.{
  run_started, proposal_received, effect_requested, write_preflight_requested,
  write_preflight_decided, write_quarantined, approval_requested, approval_granted, approval_denied,
  approval_expired, effect_receipt_recorded, external_state_observed,
}
use amca_core.Contracts.Schemas.Evidence.{external_state_observation_schema}
use amca_core.Contracts.Schemas.Effects.{effect_request_schema, effect_receipt_schema}
use amca_core.Contracts.Schemas.Preflight.{
  write_preflight_candidate_schema, write_quarantine_state_schema, write_preflight_decision_schema,
}
use amca_core.Contracts.Schemas.Mutations.{
  mutation_command_request_schema, tool_command_request_schema,
}
use amca_core.Contracts.Schemas.Approvals.{
  approval_request_schema, approval_grant_schema, approval_denial_schema, approval_expiry_schema,
}
use amca_core.Kernel.Events.{Event}
use amca_core.Kernel.Run.{
  RunKernelErrorCode, RunKernel, Check, Action, ◌>>=◌, ◌>>◌, pure, gets, require, modify, fail_if,
}
use amca_core.Kernel.Run.Append.{
  KernelEventOptions, or_else, or_null, next_event_id, append_event, record_event,
}
use amca_core.Kernel.Run.Guards.{
  entry, assert_mutation_command_payload_hash, assert_effect_request_for_receipt,
  assert_payload_hash, assert_admitted_evidence_refs,
}
use amca_core.Kernel.Run.Writes.{
  assert_write_preflight_decision_matches_request, assert_write_quarantine_matches_decision,
  assert_critical_write_approval, assert_approval_matches_request,
}

-- `options.eventId ?? this.nextEventId(type)`
abbrev pub event_id_of : KernelEventOptions → String → RunKernel → String
event_id_of options type k = or_else options.event_id (next_event_id k type)

abbrev pub with_event_id : KernelEventOptions → String → KernelEventOptions
with_event_id options event_id = record options { event_id = some event_id }

abbrev pub assert_not_started : RunKernel → Check (Unit {0})
assert_not_started k = elim k.started_event_id [
  | none ↦ ok tt
  | some id ↦ fail_if Bool.true RunKernelErrorCode.run_already_started
]

module _ (host : Host) where
  -- The checks of each method, before it appends its event.
  unfoldable pub tool_command_guard : ToolCommandRequest → RunKernel → Check (Unit {0})
  tool_command_guard proposal = entry (tool_command_request_schema host proposal) proposal.run_id

  unfoldable pub mutation_command_guard : MutationCommandRequest → RunKernel → Check (Unit {0})
  mutation_command_guard proposal k =
      Outcome.◌>>◌ (entry (mutation_command_request_schema host proposal) proposal.run_id k)
        (assert_mutation_command_payload_hash host proposal)

  unfoldable pub effect_request_guard : EffectRequest → RunKernel → Check (Unit {0})
  effect_request_guard effect_request =
      entry (effect_request_schema host effect_request) effect_request.run_id

  unfoldable pub candidate_guard : WritePreflightCandidate → RunKernel → Check (Unit {0})
  candidate_guard candidate =
      entry (write_preflight_candidate_schema host candidate) candidate.run_id

  unfoldable pub decision_guard : WritePreflightDecision → RunKernel → Check (Unit {0})
  decision_guard decision k =
      Outcome.◌>>◌ (entry (write_preflight_decision_schema host decision) decision.run_id k) (
        Outcome.◌>>◌ (assert_write_preflight_decision_matches_request decision k)
          (assert_critical_write_approval host decision k))

  unfoldable pub quarantine_guard : WriteQuarantineState → RunKernel → Check (Unit {0})
  quarantine_guard quarantine k =
      Outcome.◌>>◌ (entry (write_quarantine_state_schema host quarantine) quarantine.run_id k)
        (assert_write_quarantine_matches_decision host quarantine k)

  unfoldable pub approval_request_guard : ApprovalRequest → RunKernel → Check (Unit {0})
  approval_request_guard request = entry (approval_request_schema host request) request.run_id

  unfoldable pub grant_guard : ApprovalGrant → RunKernel → Check (Unit {0})
  grant_guard grant k = Outcome.◌>>◌ (entry (approval_grant_schema host grant) grant.run_id k) (
      assert_approval_matches_request host grant.approval_id grant.run_id grant.scope
        (some grant.granted_at) k)

  unfoldable pub denial_guard : ApprovalDenial → RunKernel → Check (Unit {0})
  denial_guard denial k =
      Outcome.◌>>◌ (entry (approval_denial_schema host denial) denial.run_id k)
        (assert_approval_matches_request host denial.approval_id denial.run_id denial.scope none k)

  unfoldable pub expiry_guard : ApprovalExpiry → RunKernel → Check (Unit {0})
  expiry_guard expiry k =
      Outcome.◌>>◌ (entry (approval_expiry_schema host expiry) expiry.run_id k)
        (assert_approval_matches_request host expiry.approval_id expiry.run_id expiry.scope none k)

  unfoldable pub receipt_guard : EffectReceipt → String → RunKernel → Check (Unit {0})
  receipt_guard receipt event_id k =
      Outcome.◌>>◌ (entry (effect_receipt_schema host receipt) receipt.run_id k) (
        Outcome.◌>>◌ (assert_effect_request_for_receipt host receipt k) (
          Outcome.◌>>◌ (assert_payload_hash host receipt.payload receipt.payload_hash) (
            assert_admitted_evidence_refs receipt.evidence event_id EvidenceKind.effect_receipt
              receipt.payload_hash)))

  unfoldable pub observation_guard :
      ExternalStateObservation → String → RunKernel → Check (Unit {0})
  observation_guard observation event_id k =
      Outcome.◌>>◌ (entry (external_state_observation_schema host observation) observation.run_id k)
        (Outcome.◌>>◌ (assert_payload_hash host observation.observed_state observation.payload_hash)
          (assert_admitted_evidence_refs observation.evidence event_id
            EvidenceKind.external_observation observation.payload_hash))

  module _ (clock : ℕ → String) where
    unfoldable pub start_run : Option String → Option Fields → KernelEventOptions → Action Event
    start_run profile metadata options = do
      require assert_not_started
      run_id ← gets (λ k. k.run_id)
      event ←
          append_event host clock (run_started run_id profile metadata)
            (record options { causation_id = some (or_null options.causation_id) })
      modify (λ k. record k { started_event_id = some event.event_id })
      pure event

    unfoldable pub submit_tool_command : ToolCommandRequest → KernelEventOptions → Action Event
    submit_tool_command proposal options =
        record_event host clock (tool_command_guard proposal)
          (proposal_received (tool_command proposal)) options
          (λ k. record k { proposals = k.proposals ++ tool_command proposal ∷ [] })

    unfoldable pub submit_mutation_command :
        MutationCommandRequest → KernelEventOptions → Action Event
    submit_mutation_command proposal options =
        record_event host clock (mutation_command_guard proposal)
          (proposal_received (mutation_command proposal)) options
          (λ k. record k { proposals = k.proposals ++ mutation_command proposal ∷ [] })

    unfoldable pub record_effect_request : EffectRequest → KernelEventOptions → Action Event
    record_effect_request effect_request options =
        record_event host clock (effect_request_guard effect_request)
          (effect_requested effect_request) options
          (λ k. record k { effect_requests = k.effect_requests ++ effect_request ∷ [] })

    unfoldable pub record_write_preflight_requested :
        WritePreflightCandidate → KernelEventOptions → Action Event
    record_write_preflight_requested candidate options =
        record_event host clock (candidate_guard candidate) (write_preflight_requested candidate)
          options
          (λ k. record k {
            write_preflight_candidates = k.write_preflight_candidates ++ candidate ∷ [];
          })

    unfoldable pub record_write_preflight_decided :
        WritePreflightDecision → KernelEventOptions → Action Event
    record_write_preflight_decided decision options =
        record_event host clock (decision_guard decision) (write_preflight_decided decision) options
          (λ k. record k {
            write_preflight_decisions = k.write_preflight_decisions ++ decision ∷ [];
          })

    unfoldable pub record_write_quarantined :
        WriteQuarantineState → KernelEventOptions → Action Event
    record_write_quarantined quarantine options =
        record_event host clock (quarantine_guard quarantine) (write_quarantined quarantine) options
          (λ k. record k { write_quarantine_states = k.write_quarantine_states ++ quarantine ∷ [] })

    unfoldable pub record_approval_requested : ApprovalRequest → KernelEventOptions → Action Event
    record_approval_requested request options =
        record_event host clock (approval_request_guard request) (approval_requested request)
          options (λ k. record k { approval_requests = k.approval_requests ++ request ∷ [] })

    unfoldable pub record_approval_granted : ApprovalGrant → KernelEventOptions → Action Event
    record_approval_granted grant options =
        record_event host clock (grant_guard grant) (approval_granted grant) options
          (λ k. record k { approval_grants = k.approval_grants ++ grant ∷ [] })

    unfoldable pub record_approval_denied : ApprovalDenial → KernelEventOptions → Action Event
    record_approval_denied denial options =
        record_event host clock (denial_guard denial) (approval_denied denial) options
          (λ k. record k { approval_denials = k.approval_denials ++ denial ∷ [] })

    unfoldable pub record_approval_expired : ApprovalExpiry → KernelEventOptions → Action Event
    record_approval_expired expiry options =
        record_event host clock (expiry_guard expiry) (approval_expired expiry) options
          (λ k. record k { approval_expiries = k.approval_expiries ++ expiry ∷ [] })

    unfoldable pub record_effect_receipt : EffectReceipt → KernelEventOptions → Action Event
    record_effect_receipt receipt options = do
      event_id ← gets (event_id_of options "EffectReceiptRecorded")
      record_event host clock (receipt_guard receipt event_id) (effect_receipt_recorded receipt)
          (with_event_id options event_id)
          (λ k. record k { effect_receipts = k.effect_receipts ++ receipt ∷ [] })

    unfoldable pub record_external_state_observation :
        ExternalStateObservation → KernelEventOptions → Action Event
    record_external_state_observation observation options = do
      event_id ← gets (event_id_of options "ExternalStateObserved")
      record_event host clock (observation_guard observation event_id)
          (external_state_observed observation) (with_event_id options event_id)
          (λ k. record k {
            external_state_observations = k.external_state_observations ++ observation ∷ [];
          })
