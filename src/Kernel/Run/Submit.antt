-- ===== src/Kernel/Run/Submit.antt =====
-- packages/kernel/src/run-kernel.ts: submitFinalCandidate, and a run of one candidate.
use amca_core.Common.{ℕ, ◌+◌, String, Option, none, some, List, [], ◌∷◌, ◌++◌, all, if◌then◌else◌}
use amca_core.Common.Equality.{◌==◌, string_has_eq}
use amca_core.Common.Outcome.{Result, ok, err}
use amca_core.Common.Outcome as Outcome
use amca_core.Protocol.Host.{Host}
use amca_core.Protocol.Evidence.{EvidenceRef}
use amca_core.Protocol.Claims.{FinalCandidate}
use amca_core.Protocol.Mutations.{final_candidate}
use amca_core.Protocol.Proofs.{Mismatch, ProofObject, ReleaseDecision, released}
use amca_core.Protocol.Payloads.{
  proposal_received, proof_generated, mismatch_detected, release_decided, final_released,
}
use amca_core.Contracts.Schemas.Evidence.{external_state_observation_schema}
use amca_core.Contracts.Schemas.Effects.{effect_receipt_schema}
use amca_core.Contracts.Schemas.Claims.{final_candidate_schema}
use amca_core.Contracts.Schemas.Proofs.{
  mismatch_schema, proof_object_schema, release_decision_schema,
}
use amca_core.Proof.Evaluation.{ProofEvaluationInput}
use amca_core.Proof.Engine.{evaluate_proof}
use amca_core.Kernel.Events.{Event}
use amca_core.Kernel.ReleaseGate.{decide_release}
use amca_core.Kernel.Run.{
  RunKernelErrorCode, KernelError, RunKernel, Check, Action, ◌>>=◌, ◌>>◌, pure, gets, require,
  parse,
}
use amca_core.Kernel.Run.Append.{
  KernelEventOptions, no_options, or_else, append_event, record_event,
}
use amca_core.Kernel.Run.Guards.{entry}

-- SubmitFinalCandidateOptions, with what it extends.
pub record SubmitOptions : Type 0 where
  pub event_options : KernelEventOptions
  pub generated_at : Option String
  pub proof_event_id : Option String
  pub proof_id : Option String
  pub mismatch_event_ids : Option (List String)
  pub release_event_id : Option String
  pub final_released_event_id : Option String

pub record SubmitFinalCandidateResult : Type 0 where
  pub candidate : FinalCandidate
  pub proof : ProofObject
  pub decision : ReleaseDecision
  pub proposal_event : Event
  pub proof_event : Event
  pub mismatch_events : List Event
  pub release_event : Event
  pub final_released_event : Option Event

abbrev final_events : Option Event → List Event
final_events none = []
final_events (some event) = event ∷ []

unfoldable pub emitted_events : SubmitFinalCandidateResult → List Event
emitted_events result =
    result.proposal_event
    ∷ result.proof_event
    ∷ (result.mismatch_events ++ (result.release_event ∷ final_events result.final_released_event))

-- kernelEventOptions({ eventId, occurredAt, causationId, correlationId })
abbrev pub caused_by : KernelEventOptions → Option String → String → Event → KernelEventOptions
caused_by options event_id occurred_at cause = record {
  event_id = event_id;
  occurred_at = some occurred_at;
  payload_hash = none;
  causation_id = some (some cause.event_id);
  correlation_id = options.correlation_id;
}

abbrev get_elem? : List String → ℕ → Option String
get_elem? [] i = none
get_elem? (s ∷ ss) ℕ.zero = some s
get_elem? (s ∷ ss) (ℕ.suc i) = get_elem? ss i

-- `options.mismatchEventIds?.[index]`, which has to be there where the ids are.
abbrev pub mismatch_event_id : Option (List String) → ℕ → Check (Option String)
mismatch_event_id none index = ok none
mismatch_event_id (some ids) index = elim (get_elem? ids index) [
  | none ↦ err (KernelError.kernel_error RunKernelErrorCode.insufficient_event_ids)
  | some event_id ↦ ok (some event_id)
]

abbrev pub proof_input : FinalCandidate → SubmitOptions → String → RunKernel → ProofEvaluationInput
proof_input candidate options generated_at k = record {
  candidate = candidate;
  effect_receipts = k.effect_receipts;
  external_state_observations = k.external_state_observations;
  generated_at = generated_at;
  proof_id = options.proof_id;
}

-- `new Set(ids).size === 1`, and then the first of them
abbrev source_event_id_for_evidence : List EvidenceRef → Option String
source_event_id_for_evidence [] = none
source_event_id_for_evidence (ref ∷ refs) =
    if all (λ other. other.source_event_id == ref.source_event_id) refs
    then some ref.source_event_id
    else none

abbrev pub at_evidence : List EvidenceRef → String → KernelEventOptions
at_evidence refs occurred_at = record no_options {
  event_id = source_event_id_for_evidence refs;
  occurred_at = some occurred_at;
}

module _ (host : Host) where
  unfoldable pub final_candidate_guard : FinalCandidate → RunKernel → Check (Unit {0})
  final_candidate_guard candidate = entry (final_candidate_schema host candidate) candidate.run_id

  -- effectReceipts() and externalStateObservations()
  abbrev pub reparse_admitted : RunKernel → Check (Unit {0})
  reparse_admitted k =
      Outcome.◌>>◌ (parse (all (effect_receipt_schema host) k.effect_receipts))
        (parse (all (external_state_observation_schema host) k.external_state_observations))

  module _ (clock : ℕ → String) where
    unfoldable pub record_mismatches :
        SubmitOptions → String → Event → ℕ → List Mismatch → Action (List Event)
    record_mismatches options generated_at proof_event index [] = pure []
    record_mismatches options generated_at proof_event index (mismatch ∷ mismatches) = do
      event_id ← require (λ k. mismatch_event_id options.mismatch_event_ids index)
      require (λ k. parse (mismatch_schema host mismatch))
      event ←
          append_event host clock (mismatch_detected mismatch)
            (caused_by options.event_options event_id generated_at proof_event)
      events ← record_mismatches options generated_at proof_event (index + 1) mismatches
      pure (event ∷ events)

    abbrev pub record_final :
        SubmitOptions → String → Event → FinalCandidate → ReleaseDecision → Action (Option Event)
    record_final options generated_at release_event candidate (released ids message) = do
      event ← append_event host clock (final_released (released ids message) candidate) (
          caused_by options.event_options options.final_released_event_id generated_at
            release_event)
      pure (some event)
    record_final options generated_at release_event candidate _ = pure none

    -- What follows the event of the proposal.
    unfoldable pub prove_and_release :
        FinalCandidate → SubmitOptions → Event → Action SubmitFinalCandidateResult
    unfolding record_mismatches
    prove_and_release candidate options proposal_event = do
      let generated_at = or_else options.generated_at proposal_event.occurred_at
      require (reparse_admitted)
      proof ← gets (λ k. evaluate_proof host (proof_input candidate options generated_at k))
      require (λ k. parse (proof_object_schema host proof))
      proof_event ←
          append_event host clock (proof_generated proof)
            (caused_by options.event_options options.proof_event_id generated_at proposal_event)
      mismatch_events ←
          record_mismatches options generated_at proof_event 0 proof.blocking_mismatches
      let decision = decide_release host (record { candidate = candidate; proof = proof })
      require (λ k. parse (release_decision_schema host decision))
      release_event ←
          append_event host clock (release_decided decision)
            (caused_by options.event_options options.release_event_id generated_at proof_event)
      final_released_event ← record_final options generated_at release_event candidate decision
      pure (record {
        candidate = candidate;
        proof = proof;
        decision = decision;
        proposal_event = proposal_event;
        proof_event = proof_event;
        mismatch_events = mismatch_events;
        release_event = release_event;
        final_released_event = final_released_event;
      })

    unfoldable pub submit_final_candidate :
        FinalCandidate → SubmitOptions → Action SubmitFinalCandidateResult
    submit_final_candidate candidate options = do
      proposal_event ←
          record_event host clock (final_candidate_guard candidate)
            (proposal_received (final_candidate candidate)) options.event_options
            (λ k. record k { proposals = k.proposals ++ final_candidate candidate ∷ [] })
      prove_and_release candidate options proposal_event
