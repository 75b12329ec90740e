-- ===== src/Kernel/Run/Runs.antt =====
-- packages/kernel/src/run-kernel.ts: every state of a kernel is made by its writes.
use mathlib.Core.Path.{subst}
use amca_core.Common.{ℕ, String, none, ◌≡◌, refl}
use amca_core.Common.Outcome.{ok, err, ok_inj, ◌>>=◌}
use amca_core.Protocol.Host.{Host}
use amca_core.Kernel.Events.{Checked}
use amca_core.Kernel.InMemoryLedger.{InMemoryLedger, create}
use amca_core.Kernel.Run.{RunKernel, event_or_error}
use amca_core.Kernel.Run.Guards.{entry, assert_effect_request_for_receipt}
use amca_core.Kernel.Run.Append.{assert_started, assert_input_run_id}
use amca_core.Protocol.Preflight.{WritePreflightDecision, Verdict, allowed, denied, quarantined}
use amca_core.Kernel.Run.Record.{
  approval_request_guard, candidate_guard, decision_guard, denial_guard, effect_request_guard,
  expiry_guard, grant_guard, mutation_command_guard, observation_guard, quarantine_guard,
  receipt_guard, record_approval_denied, record_approval_expired, record_approval_granted,
  record_approval_requested, record_effect_receipt, record_effect_request,
  record_external_state_observation, record_write_preflight_decided,
  record_write_preflight_requested, record_write_quarantined, submit_mutation_command,
  submit_tool_command, tool_command_guard, with_event_id,
}
use amca_core.Kernel.Run.Writes.{
  assert_verdict_approval, assert_approval, assert_approval_matches_request,
  assert_critical_write_approval, assert_write_preflight_decision_matches_request,
  assert_write_quarantine_matches_decision, write_preflight_candidate_by_id,
}
use amca_core.Kernel.Run.Session.{new_kernel, fresh_kernel}
use amca_core.Kernel.Run.Keeps.{after-Keeps}
use amca_core.Kernel.Run.Grown.{Grown}
use amca_core.Kernel.Run.Trail.{with_log, record_event-Grown}
use amca_core.Kernel.Run.Growth.{
  start_run-Grown, commit_mutation-Grown, submit_final_candidate-Grown,
}
use amca_core.Kernel.Run.Steps.{Call, after_call, IsRun, created, called}

module _ (host : Host) where
  made-Grown : (run_id : String) (k : RunKernel) → new_kernel host run_id ≡ ok k → Grown host k
  unfolding new_kernel
  made-Grown run_id k h = go (create host run_id none) refl h
    where
      go :
          (r : Checked InMemoryLedger)
          → create host run_id none ≡ r
          → (event_or_error r >>= λ ledger. ok (fresh_kernel run_id ledger)) ≡ ok k
          → Grown host k
      go (ok ledger) is_made h = subst (Grown host) (ok_inj h) (Grown.made run_id ledger is_made)
      go (err e) is_made h = cc

  verdict_stable :
      (x : WritePreflightDecision) (verdict : Verdict) (k : RunKernel) (ledger : InMemoryLedger)
      (ticks : ℕ)
      → assert_verdict_approval host x verdict (with_log k ledger ticks)
        ≡ assert_verdict_approval host x verdict k
  unfolding assert_approval
  verdict_stable x (allowed approval) k ledger ticks = refl
  verdict_stable x (denied reason message) k ledger ticks = refl
  verdict_stable x (quarantined state) k ledger ticks = refl

  module _ (clock : ℕ → String) where
    call-Grown :
        (call : Call) (k : RunKernel) → Grown host k → Grown host (after_call host clock call k)
    unfolding after_call approval_request_guard assert_approval assert_approval_matches_request
        assert_critical_write_approval assert_effect_request_for_receipt assert_input_run_id
        assert_started assert_write_preflight_decision_matches_request
        assert_write_quarantine_matches_decision candidate_guard decision_guard denial_guard
        effect_request_guard entry expiry_guard grant_guard mutation_command_guard observation_guard
        quarantine_guard receipt_guard record_approval_denied record_approval_expired
        record_approval_granted record_approval_requested record_effect_receipt
        record_effect_request record_external_state_observation record_write_preflight_decided
        record_write_preflight_requested record_write_quarantined submit_mutation_command
        submit_tool_command tool_command_guard write_preflight_candidate_by_id
    call-Grown (Call.start profile metadata options) k g =
        start_run-Grown host clock profile metadata options k g
    call-Grown (Call.tool_command x options) k g =
        record_event-Grown host clock (tool_command_guard host x) _ options _
          (λ k ledger ticks. refl) (λ k g h. Grown.tool_proposed k x g h) k g
    call-Grown (Call.mutation_command x options) k g =
        record_event-Grown host clock (mutation_command_guard host x) _ options _
          (λ k ledger ticks. refl) (λ k g h. Grown.mutation_proposed k x g h) k g
    call-Grown (Call.effect_request x options) k g =
        record_event-Grown host clock (effect_request_guard host x) _ options _
          (λ k ledger ticks. refl) (λ k g h. Grown.effect_requested k x g h) k g
    call-Grown (Call.preflight_requested x options) k g =
        record_event-Grown host clock (candidate_guard host x) _ options _ (λ k ledger ticks. refl)
          (λ k g h. Grown.preflight_requested k x g h) k g
    call-Grown (Call.preflight_decided x options) k g =
        record_event-Grown host clock (decision_guard host x) _ options _
          (λ k ledger ticks. rw (verdict_stable x x.verdict k ledger ticks) refl)
          (λ k g h. Grown.preflight_decided k x g h) k g
    call-Grown (Call.quarantine x options) k g =
        record_event-Grown host clock (quarantine_guard host x) _ options _ (λ k ledger ticks. refl)
          (λ k g h. Grown.write_quarantined k x g h) k g
    call-Grown (Call.approval_request x options) k g =
        record_event-Grown host clock (approval_request_guard host x) _ options _
          (λ k ledger ticks. refl) (λ k g h. Grown.approval_requested k x g h) k g
    call-Grown (Call.grant x options) k g =
        record_event-Grown host clock (grant_guard host x) _ options _ (λ k ledger ticks. refl)
          (λ k g h. Grown.approval_granted k x g h) k g
    call-Grown (Call.denial x options) k g =
        record_event-Grown host clock (denial_guard host x) _ options _ (λ k ledger ticks. refl)
          (λ k g h. Grown.approval_denied k x g h) k g
    call-Grown (Call.expiry x options) k g =
        record_event-Grown host clock (expiry_guard host x) _ options _ (λ k ledger ticks. refl)
          (λ k g h. Grown.approval_expired k x g h) k g
    call-Grown (Call.receipt x options) k g = after-Keeps (Grown host) _ _ g λ event_id l g.
        record_event-Grown host clock (receipt_guard host x event_id) _
          (with_event_id options event_id) _ (λ k ledger ticks. refl)
          (λ k g h. Grown.receipt_recorded k x event_id g h) l g
    call-Grown (Call.observation x options) k g = after-Keeps (Grown host) _ _ g λ event_id l g.
        record_event-Grown host clock (observation_guard host x event_id) _
          (with_event_id options event_id) _ (λ k ledger ticks. refl)
          (λ k g h. Grown.state_observed k x event_id g h) l g
    call-Grown (Call.commit x options) k g = commit_mutation-Grown host clock x options k g
    call-Grown (Call.final_candidate x options) k g =
        submit_final_candidate-Grown host clock x options k g

    pub run-Grown : (k : RunKernel) → IsRun host clock k → Grown host k
    run-Grown _ (created run_id k h) = made-Grown run_id k h
    run-Grown _ (called call k run) = call-Grown call k (run-Grown k run)
