-- ===== src/Kernel/Run/Grown.antt =====
-- packages/kernel/src/run-kernel.ts: the states that the writes of the methods make, one by one.
use amca_core.Common.{◌+◌, String, Bool, none, some, [], ◌∷◌, ◌++◌, ◌≡◌}
use amca_core.Common.Outcome.{ok}
use amca_core.Protocol.Host.{Host}
use amca_core.Protocol.Evidence.{ExternalStateObservation}
use amca_core.Protocol.Effects.{EffectRequest, EffectReceipt}
use amca_core.Protocol.Preflight.{
  WritePreflightCandidate, WritePreflightDecision, WriteQuarantineState,
}
use amca_core.Protocol.Approvals.{ApprovalRequest, ApprovalGrant, ApprovalDenial, ApprovalExpiry}
use amca_core.Protocol.Mutations.{
  MutationCommandRequest, ToolCommandRequest, tool_command, mutation_command, final_candidate,
}
use amca_core.Protocol.Claims.{FinalCandidate}
use amca_core.Contracts.Schemas.Mutations.{mutation_committed_schema}
use amca_core.Kernel.Events.{RunEventAppendInput}
use amca_core.Kernel.InMemoryLedger.{InMemoryLedger, append, create}
use amca_core.Kernel.Run.{RunKernel}
use amca_core.Kernel.Run.Record.{
  tool_command_guard, mutation_command_guard, effect_request_guard, candidate_guard, decision_guard,
  quarantine_guard, approval_request_guard, grant_guard, denial_guard, expiry_guard, receipt_guard,
  observation_guard,
}
use amca_core.Kernel.Run.Commit.{state_revision, commit_guard, committed_mutation, push_mutation}
use amca_core.Kernel.Run.Submit.{final_candidate_guard}
use amca_core.Kernel.Run.Session.{fresh_kernel}

module _ (host : Host) where
  -- A state and what its checks let in. An event may be in the log whose input is in no list.
  pub data Grown : RunKernel → Type 0 where
    made :
        (run_id : String) (ledger : InMemoryLedger)
        → create host run_id none ≡ ok ledger
        → Grown (fresh_kernel run_id ledger)
    logged :
        (k : RunKernel) (input : RunEventAppendInput)
        → Grown k
        → Grown (record k { ledger = (append host input k.ledger).1 })
    ticked : (k : RunKernel) → Grown k → Grown (record k { ticks = k.ticks + 1 })
    started :
        (k : RunKernel) (event_id : String)
        → Grown k
        → Grown (record k { started_event_id = some event_id })
    tool_proposed :
        (k : RunKernel) (x : ToolCommandRequest)
        → Grown k
        → tool_command_guard host x k ≡ ok tt
        → Grown (record k { proposals = k.proposals ++ tool_command x ∷ [] })
    mutation_proposed :
        (k : RunKernel) (x : MutationCommandRequest)
        → Grown k
        → mutation_command_guard host x k ≡ ok tt
        → Grown (record k { proposals = k.proposals ++ mutation_command x ∷ [] })
    candidate_proposed :
        (k : RunKernel) (x : FinalCandidate)
        → Grown k
        → final_candidate_guard host x k ≡ ok tt
        → Grown (record k { proposals = k.proposals ++ final_candidate x ∷ [] })
    effect_requested :
        (k : RunKernel) (x : EffectRequest)
        → Grown k
        → effect_request_guard host x k ≡ ok tt
        → Grown (record k { effect_requests = k.effect_requests ++ x ∷ [] })
    preflight_requested :
        (k : RunKernel) (x : WritePreflightCandidate)
        → Grown k
        → candidate_guard host x k ≡ ok tt
        → Grown (record k { write_preflight_candidates = k.write_preflight_candidates ++ x ∷ [] })
    preflight_decided :
        (k : RunKernel) (x : WritePreflightDecision)
        → Grown k
        → decision_guard host x k ≡ ok tt
        → Grown (record k { write_preflight_decisions = k.write_preflight_decisions ++ x ∷ [] })
    write_quarantined :
        (k : RunKernel) (x : WriteQuarantineState)
        → Grown k
        → quarantine_guard host x k ≡ ok tt
        → Grown (record k { write_quarantine_states = k.write_quarantine_states ++ x ∷ [] })
    approval_requested :
        (k : RunKernel) (x : ApprovalRequest)
        → Grown k
        → approval_request_guard host x k ≡ ok tt
        → Grown (record k { approval_requests = k.approval_requests ++ x ∷ [] })
    approval_granted :
        (k : RunKernel) (x : ApprovalGrant)
        → Grown k
        → grant_guard host x k ≡ ok tt
        → Grown (record k { approval_grants = k.approval_grants ++ x ∷ [] })
    approval_denied :
        (k : RunKernel) (x : ApprovalDenial)
        → Grown k
        → denial_guard host x k ≡ ok tt
        → Grown (record k { approval_denials = k.approval_denials ++ x ∷ [] })
    approval_expired :
        (k : RunKernel) (x : ApprovalExpiry)
        → Grown k
        → expiry_guard host x k ≡ ok tt
        → Grown (record k { approval_expiries = k.approval_expiries ++ x ∷ [] })
    receipt_recorded :
        (k : RunKernel) (x : EffectReceipt) (event_id : String)
        → Grown k
        → receipt_guard host x event_id k ≡ ok tt
        → Grown (record k { effect_receipts = k.effect_receipts ++ x ∷ [] })
    state_observed :
        (k : RunKernel) (x : ExternalStateObservation) (event_id : String)
        → Grown k
        → observation_guard host x event_id k ≡ ok tt
        → Grown (record k { external_state_observations = k.external_state_observations ++ x ∷ [] })
    mutation_committed :
        (k : RunKernel) (x : MutationCommandRequest) (committed_at payload_hash : String)
        → Grown k
        → commit_guard host x k ≡ ok tt
        → mutation_committed_schema host
            (committed_mutation x (state_revision k x.state_ref) committed_at payload_hash)
          ≡ Bool.true
        → Grown (
            push_mutation
              (committed_mutation x (state_revision k x.state_ref) committed_at payload_hash)
              k)
