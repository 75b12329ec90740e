-- ===== src/Kernel/Run/Steps.antt =====
-- packages/kernel/src/run-kernel.ts: the states of a kernel that calls of its methods make, in any order, those
-- that throw included.
use amca_core.Common.{ℕ, String, Option, ◌≡◌}
use amca_core.Common.Outcome.{ok}
use amca_core.Protocol.Json.{Fields}
use amca_core.Protocol.Host.{Host}
use amca_core.Protocol.Evidence.{ExternalStateObservation}
use amca_core.Protocol.Effects.{EffectRequest, EffectReceipt}
use amca_core.Protocol.Preflight.{
  WritePreflightCandidate, WritePreflightDecision, WriteQuarantineState,
}
use amca_core.Protocol.Approvals.{ApprovalRequest, ApprovalGrant, ApprovalDenial, ApprovalExpiry}
use amca_core.Protocol.Mutations.{MutationCommandRequest, ToolCommandRequest}
use amca_core.Protocol.Claims.{FinalCandidate}
use amca_core.Kernel.Run.{RunKernel}
use amca_core.Kernel.Run.Append.{KernelEventOptions}
use amca_core.Kernel.Run.Record.{
  start_run, submit_tool_command, submit_mutation_command, record_effect_request,
  record_write_preflight_requested, record_write_preflight_decided, record_write_quarantined,
  record_approval_requested, record_approval_granted, record_approval_denied,
  record_approval_expired, record_effect_receipt, record_external_state_observation,
}
use amca_core.Kernel.Run.Commit.{commit_mutation}
use amca_core.Kernel.Run.Submit.{SubmitOptions, submit_final_candidate}
use amca_core.Kernel.Run.Session.{new_kernel}

-- The methods that change the state, with their arguments.
pub data Call : Type 0 where
  start : Option String → Option Fields → KernelEventOptions → Call
  tool_command : ToolCommandRequest → KernelEventOptions → Call
  mutation_command : MutationCommandRequest → KernelEventOptions → Call
  effect_request : EffectRequest → KernelEventOptions → Call
  preflight_requested : WritePreflightCandidate → KernelEventOptions → Call
  preflight_decided : WritePreflightDecision → KernelEventOptions → Call
  quarantine : WriteQuarantineState → KernelEventOptions → Call
  approval_request : ApprovalRequest → KernelEventOptions → Call
  grant : ApprovalGrant → KernelEventOptions → Call
  denial : ApprovalDenial → KernelEventOptions → Call
  expiry : ApprovalExpiry → KernelEventOptions → Call
  commit : MutationCommandRequest → KernelEventOptions → Call
  receipt : EffectReceipt → KernelEventOptions → Call
  observation : ExternalStateObservation → KernelEventOptions → Call
  final_candidate : FinalCandidate → SubmitOptions → Call

module _ (host : Host) (clock : ℕ → String) where
  -- The state after a call that returned or threw.
  unfoldable pub after_call : Call → RunKernel → RunKernel
  after_call (start profile metadata options) k =
      (start_run host clock profile metadata options k).1
  after_call (tool_command x options) k = (submit_tool_command host clock x options k).1
  after_call (mutation_command x options) k = (submit_mutation_command host clock x options k).1
  after_call (effect_request x options) k = (record_effect_request host clock x options k).1
  after_call (preflight_requested x options) k =
      (record_write_preflight_requested host clock x options k).1
  after_call (preflight_decided x options) k =
      (record_write_preflight_decided host clock x options k).1
  after_call (quarantine x options) k = (record_write_quarantined host clock x options k).1
  after_call (approval_request x options) k = (record_approval_requested host clock x options k).1
  after_call (grant x options) k = (record_approval_granted host clock x options k).1
  after_call (denial x options) k = (record_approval_denied host clock x options k).1
  after_call (expiry x options) k = (record_approval_expired host clock x options k).1
  after_call (commit x options) k = (commit_mutation host clock x options k).1
  after_call (receipt x options) k = (record_effect_receipt host clock x options k).1
  after_call (observation x options) k =
      (record_external_state_observation host clock x options k).1
  after_call (final_candidate x options) k = (submit_final_candidate host clock x options k).1

  pub data IsRun : RunKernel → Type 0 where
    created : (run_id : String) (k : RunKernel) → new_kernel host run_id ≡ ok k → IsRun k
    called : (call : Call) (k : RunKernel) → IsRun k → IsRun (after_call call k)
