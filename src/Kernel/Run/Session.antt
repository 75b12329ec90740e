-- ===== src/Kernel/Run/Session.antt =====
-- packages/kernel/src/run-kernel.ts: the constructor, the methods that read, and a run of one candidate.
use amca_core.Common.{ℕ, String, Bool, Option, none, List, [], ◌∷◌, all}
use amca_core.Common.Outcome.{ok, err}
use amca_core.Common.Outcome as Outcome
use amca_core.Protocol.Json.{Fields}
use amca_core.Protocol.Host.{Host}
use amca_core.Protocol.Evidence.{ExternalStateObservation}
use amca_core.Protocol.Effects.{EffectRequest, EffectReceipt}
use amca_core.Protocol.Preflight.{
  WritePreflightCandidate, WritePreflightDecision, WriteQuarantineState,
}
use amca_core.Protocol.Approvals.{ApprovalRequest, ApprovalGrant, ApprovalDenial, ApprovalExpiry}
use amca_core.Protocol.Mutations.{MutationCommitted, Proposal}
use amca_core.Protocol.Claims.{FinalCandidate}
use amca_core.Contracts.Schemas.Evidence.{external_state_observation_schema}
use amca_core.Contracts.Schemas.Effects.{effect_request_schema, effect_receipt_schema}
use amca_core.Contracts.Schemas.Preflight.{
  write_preflight_candidate_schema, write_quarantine_state_schema, write_preflight_decision_schema,
}
use amca_core.Contracts.Schemas.Mutations.{mutation_committed_schema, proposal_schema}
use amca_core.Contracts.Schemas.Approvals.{
  approval_request_schema, approval_grant_schema, approval_denial_schema, approval_expiry_schema,
}
use amca_core.Kernel.Events.{Event}
use amca_core.Kernel.InMemoryLedger.{InMemoryLedger, create}
use amca_core.Kernel.InMemoryLedger as Log
use amca_core.Kernel.Run.{RunKernel, Check, Action, ◌>>=◌, ◌>>◌, pure, parse, event_or_error}
use amca_core.Kernel.Run.Append.{no_options}
use amca_core.Kernel.Run.Record.{
  start_run, record_effect_request, record_effect_receipt, record_external_state_observation,
}
use amca_core.Kernel.Run.Submit.{SubmitFinalCandidateResult, submit_final_candidate, at_evidence}

abbrev pub fresh_kernel : String → InMemoryLedger → RunKernel
fresh_kernel run_id ledger = record {
  run_id = run_id;
  ledger = ledger;
  started_event_id = none;
  effect_requests = [];
  effect_receipts = [];
  external_state_observations = [];
  mutations = [];
  state_revisions = λ state_ref. none;
  approval_requests = [];
  approval_grants = [];
  approval_denials = [];
  approval_expiries = [];
  proposals = [];
  write_preflight_candidates = [];
  write_preflight_decisions = [];
  write_quarantine_states = [];
  ticks = 0;
}

-- `this.#list.map((value) => parse(value))`
abbrev pub reparsed : {A : Type 0} → (A → Bool) → List A → Check (List A)
reparsed schema values = Outcome.◌>>◌ (parse (all schema values)) (ok values)

module _ (host : Host) where
  unfoldable pub new_kernel : String → Check RunKernel
  new_kernel run_id =
      Outcome.◌>>=◌ (event_or_error (create host run_id none))
        (λ ledger. ok (fresh_kernel run_id ledger))

  unfoldable pub effect_requests : RunKernel → Check (List EffectRequest)
  effect_requests k = reparsed (effect_request_schema host) k.effect_requests

  unfoldable pub effect_receipts : RunKernel → Check (List EffectReceipt)
  effect_receipts k = reparsed (effect_receipt_schema host) k.effect_receipts

  unfoldable pub external_state_observations : RunKernel → Check (List ExternalStateObservation)
  external_state_observations k =
      reparsed (external_state_observation_schema host) k.external_state_observations

  unfoldable pub mutations : RunKernel → Check (List MutationCommitted)
  mutations k = reparsed (mutation_committed_schema host) k.mutations

  unfoldable pub approval_requests : RunKernel → Check (List ApprovalRequest)
  approval_requests k = reparsed (approval_request_schema host) k.approval_requests

  unfoldable pub approval_grants : RunKernel → Check (List ApprovalGrant)
  approval_grants k = reparsed (approval_grant_schema host) k.approval_grants

  unfoldable pub approval_denials : RunKernel → Check (List ApprovalDenial)
  approval_denials k = reparsed (approval_denial_schema host) k.approval_denials

  unfoldable pub approval_expiries : RunKernel → Check (List ApprovalExpiry)
  approval_expiries k = reparsed (approval_expiry_schema host) k.approval_expiries

  unfoldable pub write_preflight_candidates : RunKernel → Check (List WritePreflightCandidate)
  write_preflight_candidates k =
      reparsed (write_preflight_candidate_schema host) k.write_preflight_candidates

  unfoldable pub write_preflight_decisions : RunKernel → Check (List WritePreflightDecision)
  write_preflight_decisions k =
      reparsed (write_preflight_decision_schema host) k.write_preflight_decisions

  unfoldable pub write_quarantine_states : RunKernel → Check (List WriteQuarantineState)
  write_quarantine_states k =
      reparsed (write_quarantine_state_schema host) k.write_quarantine_states

  unfoldable pub proposals : RunKernel → Check (List Proposal)
  proposals k = reparsed (proposal_schema host) k.proposals

  unfoldable pub run_events : RunKernel → Check (List Event)
  run_events k = event_or_error (Log.events host k.ledger)

  unfoldable pub run_replay : RunKernel → Check (List Event)
  run_replay k = event_or_error (Log.replay host k.ledger)

-- The input of runFinalCandidateThroughKernel; its lists are empty where they are left out.
pub record CandidateRun : Type 0 where
  pub run_id : String
  pub candidate : FinalCandidate
  pub effect_requests : List EffectRequest
  pub effect_receipts : List EffectReceipt
  pub external_state_observations : List ExternalStateObservation
  pub occurred_at : Option String
  pub generated_at : Option String
  pub profile : Option String
  pub metadata : Option Fields

module _ (host : Host) (clock : ℕ → String) where
  -- `for (const value of values) { … }`
  abbrev pub for_each : {A : Type 0} → (A → Action Event) → List A → Action (Unit {0})
  for_each body [] = pure tt
  for_each body (x ∷ xs) = do event ← body x; for_each body xs

  -- The call on a kernel that was just made.
  unfoldable pub run_candidate : CandidateRun → Action SubmitFinalCandidateResult
  run_candidate input = do
    event ←
        start_run host clock input.profile input.metadata
          (record no_options { occurred_at = input.occurred_at })
    for_each (λ request. record_effect_request host clock request no_options) input.effect_requests
    for_each
        (λ receipt.
          record_effect_receipt host clock receipt
            (at_evidence receipt.evidence receipt.observed_at))
        input.effect_receipts
    for_each
        (λ observation.
          record_external_state_observation host clock observation
            (at_evidence observation.evidence observation.observed_at))
        input.external_state_observations
    submit_final_candidate host clock input.candidate (record {
      event_options = record no_options { occurred_at = input.occurred_at };
      generated_at = input.generated_at;
      proof_event_id = none;
      proof_id = none;
      mismatch_event_ids = none;
      release_event_id = none;
      final_released_event_id = none;
    })

  abbrev on_kernel : CandidateRun → Check RunKernel → Check SubmitFinalCandidateResult
  on_kernel input (ok k) = (run_candidate input k).0
  on_kernel input (err e) = err e

  unfoldable pub run_final_candidate_through_kernel :
      CandidateRun → Check SubmitFinalCandidateResult
  unfolding run_candidate
  run_final_candidate_through_kernel input = on_kernel input (new_kernel host input.run_id)
