-- ===== src/Kernel/Run.antt =====
-- packages/kernel/src/run-kernel.ts: the state of a run's kernel, and calls that may throw. What was
-- written before a throw stays written.
pub mod Append
pub mod Guards
pub mod Writes
pub mod Record
pub mod Commit
pub mod Submit
pub mod Session
pub mod Keeps
pub mod Grown
pub mod Trail
pub mod Growth
pub mod Steps
pub mod Runs
pub mod Origins
pub mod Traced
pub mod Matched
pub mod Passed
pub mod Admitted
pub mod Approved
pub mod Logs
pub mod Reads
pub mod Revisions
pub mod Released
pub mod Safety
pub mod Outcomes
pub mod Advances
use amca_core.Common.{ℕ, ◌+◌, String, Bool, true, false, Option, List, [], ◌∷◌, if◌then◌else◌}
use amca_core.Common.Outcome.{Result, ok, err}
use amca_core.Protocol.Evidence.{ExternalStateObservation}
use amca_core.Protocol.Effects.{EffectRequest, EffectReceipt}
use amca_core.Protocol.Preflight.{
  WritePreflightCandidate, WritePreflightDecision, WriteQuarantineState,
}
use amca_core.Protocol.Approvals.{ApprovalRequest, ApprovalGrant, ApprovalDenial, ApprovalExpiry}
use amca_core.Protocol.Mutations.{MutationCommitted, Proposal}
use amca_core.Contracts.Canonical.{TypeError}
use amca_core.Kernel.Events.{EventValidationErrorCode}
use amca_core.Kernel.InMemoryLedger.{InMemoryLedger}

pub data RunKernelErrorCode : Type 0 where
  effect_request_mismatch effect_request_not_found evidence_hash_mismatch : RunKernelErrorCode
  evidence_kind_mismatch evidence_source_event_mismatch insufficient_event_ids : RunKernelErrorCode
  approval_denied approval_expired approval_request_not_found approval_required : RunKernelErrorCode
  approval_scope_mismatch invalid_causation_id invalid_correlation_id : RunKernelErrorCode
  ledger_append_failed mutation_hash_mismatch mutation_proposal_not_found : RunKernelErrorCode
  mutation_stale_revision payload_hash_mismatch run_already_started run_id_mismatch :
      RunKernelErrorCode
  run_not_started write_preflight_decision_not_found write_preflight_mismatch : RunKernelErrorCode
  write_preflight_request_not_found write_quarantine_mismatch : RunKernelErrorCode

-- What a call may throw: the kernel's own error, that of its log, that of a schema, and that of
-- canonical JSON.
pub data KernelError : Type 0 where
  kernel_error : RunKernelErrorCode → KernelError
  event_error : EventValidationErrorCode → KernelError
  contract_error : KernelError
  json_error : TypeError → KernelError

-- `ticks` counts the reads of the clock.
pub record RunKernel : Type 0 where
  pub run_id : String
  pub ledger : InMemoryLedger
  pub started_event_id : Option String
  pub effect_requests : List EffectRequest
  pub effect_receipts : List EffectReceipt
  pub external_state_observations : List ExternalStateObservation
  pub mutations : List MutationCommitted
  pub state_revisions : String → Option ℕ
  pub approval_requests : List ApprovalRequest
  pub approval_grants : List ApprovalGrant
  pub approval_denials : List ApprovalDenial
  pub approval_expiries : List ApprovalExpiry
  pub proposals : List Proposal
  pub write_preflight_candidates : List WritePreflightCandidate
  pub write_preflight_decisions : List WritePreflightDecision
  pub write_quarantine_states : List WriteQuarantineState
  pub ticks : ℕ

abbrev pub Check : Type 0 → Type 0
Check A = Result KernelError A

abbrev pub Action : Type 0 → Type 0
Action A = RunKernel → Check A × RunKernel

unfoldable pub after : {A B : Type 0} → (A → Action B) → Check A × RunKernel → Check B × RunKernel
after f (ok a, k) = f a k
after f (err e, k) = (err e, k)

infixl 5 ◌>>=◌ ◌>>◌
abbrev pub ◌>>=◌ : {A B : Type 0} → Action A → (A → Action B) → Action B
◌>>=◌ m f k = after f (m k)

abbrev pub ◌>>◌ : {B : Type 0} → Action (Unit {0}) → Action B → Action B
m >> n = m >>= λ _. n

module _ {A : Type 0} where
  abbrev pub pure : A → Action A
  pure a k = (ok a, k)

  abbrev pub gets : (RunKernel → A) → Action A
  gets f k = (ok (f k), k)

  -- A call that reads the state and may throw.
  abbrev pub require : (RunKernel → Check A) → Action A
  require check k = (check k, k)

abbrev pub modify : (RunKernel → RunKernel) → Action (Unit {0})
modify f k = (ok tt, f k)

-- `if (test) throw new RunKernelError(code, …)`
abbrev pub fail_if : Bool → RunKernelErrorCode → Check (Unit {0})
fail_if true code = err (kernel_error code)
fail_if false code = ok tt

-- The schema of a contract on a value of its type: parseX returns the value or throws.
abbrev pub parse : Bool → Check (Unit {0})
parse true = ok tt
parse false = err contract_error

abbrev pub json_or_error : {A : Type 0} → Result TypeError A → Check A
json_or_error (ok a) = ok a
json_or_error (err e) = err (json_error e)

abbrev pub event_or_error : {A : Type 0} → Result EventValidationErrorCode A → Check A
event_or_error (ok a) = ok a
event_or_error (err e) = err (event_error e)
