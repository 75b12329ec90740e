-- ===== src/Kernel/Run/Writes.antt =====
-- packages/kernel/src/run-kernel.ts: the checks on write preflights and on approvals.
use amca_core.Common.{
  String, Bool, true, false, not, ◌&&◌, ◌||◌, Option, none, some, List, [], ◌∷◌, any, find, ltb, ℕ,
  if◌then◌else◌,
}
use amca_core.Common.Equality.{◌==◌, string_has_eq, option_has_eq}
use amca_core.Common.Outcome.{ok, ◌>>=◌, ◌>>◌}
use amca_core.Protocol.Host.{Host}
use amca_core.Protocol.Effects.{SideEffectClass, side_effect_class_has_eq}
use amca_core.Protocol.Preflight.{
  WritePreflightCandidate, WritePreflightDecision, WriteQuarantineState, Verdict, allowed,
  quarantined,
}
use amca_core.Protocol.Approvals.{ApprovalScope, write_preflight}
use amca_core.Contracts.Json.Approvals.{approval_scope_fields}
use amca_core.Contracts.Json.Preflight.{write_quarantine_state_fields}
use amca_core.Kernel.Run.{RunKernelErrorCode, RunKernel, Check, fail_if}
use amca_core.Kernel.Run.Guards.{found, same_hash}

-- `Date.parse(a) > Date.parse(b)`
abbrev pub date_later : Option ℕ → Option ℕ → Bool
date_later (some a) (some b) = ltb b a
date_later _ _ = false

unfoldable pub write_preflight_candidate_by_id : String → RunKernel → Option WritePreflightCandidate
write_preflight_candidate_by_id preflight_id k =
    find (λ candidate. candidate.preflight_id == preflight_id) k.write_preflight_candidates

unfoldable pub write_preflight_approval_scope : WritePreflightDecision → ApprovalScope
write_preflight_approval_scope decision =
    write_preflight decision.preflight_id decision.command_id decision.capability_id
      decision.tool_id decision.side_effect_class decision.idempotency_key

-- The comparison of a candidate with a decision.
unfoldable pub candidate_is_decided : WritePreflightCandidate → WritePreflightDecision → Bool
candidate_is_decided candidate decision =
    candidate.run_id == decision.run_id
    && (candidate.command_id == decision.command_id
        && (candidate.capability_id == decision.capability_id
            && (candidate.tool_id == decision.tool_id
                && (candidate.side_effect_class == decision.side_effect_class
                    && candidate.idempotency_key == decision.idempotency_key))))

-- The comparison of a candidate with a quarantine.
unfoldable pub candidate_is_quarantined : WritePreflightCandidate → WriteQuarantineState → Bool
candidate_is_quarantined candidate quarantine =
    candidate.run_id == quarantine.run_id
    && (candidate.command_id == quarantine.command_id
        && (candidate.capability_id == quarantine.capability_id
            && (candidate.tool_id == quarantine.tool_id
                && (candidate.side_effect_class == quarantine.side_effect_class
                    && candidate.idempotency_key == quarantine.idempotency_key))))

-- The comparison of the quarantine that a quarantined decision embeds with the decision.
abbrev pub embeds_its_quarantine : WritePreflightDecision → Verdict → Bool
embeds_its_quarantine decision (quarantined quarantine) =
    quarantine.run_id == decision.run_id
    && (quarantine.preflight_id == decision.preflight_id
        && (quarantine.command_id == decision.command_id
            && (quarantine.capability_id == decision.capability_id
                && (quarantine.tool_id == decision.tool_id
                    && (quarantine.side_effect_class == decision.side_effect_class
                        && quarantine.idempotency_key == decision.idempotency_key)))))
embeds_its_quarantine decision _ = true

unfoldable pub assert_write_preflight_decision_matches_request :
    WritePreflightDecision → RunKernel → Check (Unit {0})
unfolding write_preflight_candidate_by_id candidate_is_decided
assert_write_preflight_decision_matches_request decision k = do
  candidate ←
      found (write_preflight_candidate_by_id decision.preflight_id k)
        RunKernelErrorCode.write_preflight_request_not_found
  fail_if (not (candidate_is_decided candidate decision))
      RunKernelErrorCode.write_preflight_mismatch
  fail_if (not (embeds_its_quarantine decision decision.verdict))
      RunKernelErrorCode.write_quarantine_mismatch

-- The quarantine of the first decision that `find` takes.
abbrev pub quarantine_of : WriteQuarantineState → String → Verdict → Option WriteQuarantineState
quarantine_of quarantine preflight_id (quarantined embedded) =
    if preflight_id == quarantine.preflight_id && embedded.quarantine_id == quarantine.quarantine_id
    then some embedded
    else none
quarantine_of quarantine preflight_id _ = none

abbrev pub find_quarantine :
    WriteQuarantineState → List WritePreflightDecision → Option WriteQuarantineState
find_quarantine quarantine [] = none
find_quarantine quarantine (decision ∷ decisions) =
    elim (quarantine_of quarantine decision.preflight_id decision.verdict) [
      | none ↦ find_quarantine quarantine decisions
      | some embedded ↦ some embedded
    ]

module _ (host : Host) where
  unfoldable pub same_approval_scope : ApprovalScope → ApprovalScope → Check Bool
  unfolding same_hash
  same_approval_scope left right =
      same_hash host (approval_scope_fields left) (approval_scope_fields right)

  unfoldable pub assert_write_quarantine_matches_decision :
      WriteQuarantineState → RunKernel → Check (Unit {0})
  unfolding write_preflight_candidate_by_id candidate_is_quarantined same_hash
  assert_write_quarantine_matches_decision quarantine k = do
    candidate ←
        found (write_preflight_candidate_by_id quarantine.preflight_id k)
          RunKernelErrorCode.write_preflight_request_not_found
    fail_if (not (candidate_is_quarantined candidate quarantine))
        RunKernelErrorCode.write_quarantine_mismatch
    decided ←
        found (find_quarantine quarantine k.write_preflight_decisions)
          RunKernelErrorCode.write_preflight_decision_not_found
    same ←
        same_hash host (write_quarantine_state_fields decided)
          (write_quarantine_state_fields quarantine)
    fail_if (not same) RunKernelErrorCode.write_quarantine_mismatch

  -- What follows where the decision allows a critical write.
  unfoldable pub assert_approval :
      WritePreflightDecision → Option String → RunKernel → Check (Unit {0})
  unfolding same_approval_scope write_preflight_approval_scope
  assert_approval decision approval k = do
    approval_id ← found approval RunKernelErrorCode.approval_required
    grant ←
        found (find (λ candidate. candidate.approval_id == approval_id) k.approval_grants)
          RunKernelErrorCode.approval_required
    same ← same_approval_scope grant.scope (write_preflight_approval_scope decision)
    fail_if (not same) RunKernelErrorCode.approval_scope_mismatch
    fail_if (any (λ denial. denial.approval_id == approval_id) k.approval_denials)
        RunKernelErrorCode.approval_denied
    fail_if
        (any (λ expiry. expiry.approval_id == approval_id) k.approval_expiries
          || date_later (host.date_parse decision.decided_at) (host.date_parse grant.expires_at))
        RunKernelErrorCode.approval_expired

  abbrev pub assert_verdict_approval :
      WritePreflightDecision → Verdict → RunKernel → Check (Unit {0})
  assert_verdict_approval decision (allowed approval) k =
      if decision.side_effect_class == SideEffectClass.critical_write
      then assert_approval decision approval k
      else ok tt
  assert_verdict_approval decision _ k = ok tt

  unfoldable pub assert_critical_write_approval :
      WritePreflightDecision → RunKernel → Check (Unit {0})
  unfolding assert_approval
  assert_critical_write_approval decision k = assert_verdict_approval decision decision.verdict k

  abbrev assert_granted_in_time : Option String → String → Check (Unit {0})
  assert_granted_in_time none expires_at = ok tt
  assert_granted_in_time (some granted_at) expires_at =
      fail_if (date_later (host.date_parse granted_at) (host.date_parse expires_at))
        RunKernelErrorCode.approval_expired

  -- The id, the run and the scope of the approval, and the time of a grant.
  unfoldable pub assert_approval_matches_request :
      String → String → ApprovalScope → Option String → RunKernel → Check (Unit {0})
  unfolding same_approval_scope
  assert_approval_matches_request approval_id run_id scope granted_at k = do
    request ←
        found (find (λ candidate. candidate.approval_id == approval_id) k.approval_requests)
          RunKernelErrorCode.approval_request_not_found
    fail_if (not (request.run_id == run_id)) RunKernelErrorCode.approval_scope_mismatch
    same ← same_approval_scope request.scope scope
    fail_if (not same) RunKernelErrorCode.approval_scope_mismatch
    assert_granted_in_time granted_at request.expires_at
