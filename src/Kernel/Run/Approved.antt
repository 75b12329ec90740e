-- ===== src/Kernel/Run/Approved.antt =====
-- packages/kernel/src/run-kernel.ts: the approvals behind critical writes.
use mathlib.Core.Path.{subst}
use mathlib.Core.List.{Memᴰ}
use amca_core.Common.{ℕ, String, Bool, true, false, Option, some, ◌||◌, ◌≡◌, find, if◌then◌else◌}
use amca_core.Common.Members.{find_witness}
use amca_core.Common.Equality.{◌==◌, string_has_eq}
use amca_core.Common.Outcome.{ok, bind-eq-ok}
use amca_core.Protocol.Json.{obj}
use amca_core.Protocol.Host.{Host}
use amca_core.Protocol.Effects.{SideEffectClass, side_effect_class_has_eq}
use amca_core.Protocol.Preflight.{WritePreflightDecision, allowed}
use amca_core.Protocol.Approvals.{ApprovalScope, ApprovalRequest, ApprovalGrant}
use amca_core.Contracts.Canonical.{canonical_hash}
use amca_core.Contracts.Json.Approvals.{approval_scope_fields}
use amca_core.Kernel.Run.{RunKernel, Check, fail_if}
use amca_core.Kernel.Run.Guards.{found, entry, same_hash}
use amca_core.Kernel.Run.Writes.{
  date_later, write_preflight_approval_scope, same_approval_scope, assert_approval,
  assert_verdict_approval, assert_critical_write_approval,
  assert_write_preflight_decision_matches_request, assert_approval_matches_request,
}
use amca_core.Kernel.Run.Record.{decision_guard, grant_guard}
use amca_core.Kernel.Run.Steps.{IsRun}
use amca_core.Kernel.Run.Runs.{run-Grown}
use amca_core.Kernel.Run.Traced.{origins}
use amca_core.Kernel.Run.Passed.{
  then-eq-ok, fail_if-eq-ok, fail_unless-eq-ok, found-eq-ok, same_hash_lem,
}

or_false : (a b : Bool) → (a || b) ≡ false → b ≡ false
or_false true b h = cc
or_false false b h = h

taken : (b : Bool) (m : Check (Unit {0})) → (if b then m else ok tt) ≡ ok tt → b ≡ true → m ≡ ok tt
taken true m h is_true = h
taken false m h is_true = cc

module _ (host : Host) where
  -- Two scopes with one canonical hash.
  abbrev pub SameScope : ApprovalScope → ApprovalScope → Type 0
  SameScope left right =
      (hash : String) × (canonical_hash host (obj (approval_scope_fields left)) ≡ ok hash)
      × (canonical_hash host (obj (approval_scope_fields right)) ≡ ok hash)

  -- The request that a grant answers.
  abbrev pub Answers : RunKernel → ApprovalGrant → Type 0
  Answers k grant =
      (request : ApprovalRequest) × Memᴰ request k.approval_requests
      × (request.approval_id ≡ grant.approval_id)
      × (request.run_id ≡ grant.run_id)
      × SameScope request.scope grant.scope
      × (date_later (host.date_parse grant.granted_at) (host.date_parse request.expires_at) ≡ false)

  -- The grant that covers a decision.
  abbrev pub Covers : RunKernel → WritePreflightDecision → Option String → Type 0
  Covers k decision approval =
      (grant : ApprovalGrant) × Memᴰ grant k.approval_grants
      × (approval ≡ some grant.approval_id)
      × SameScope grant.scope (write_preflight_approval_scope decision)
      × (date_later (host.date_parse decision.decided_at) (host.date_parse grant.expires_at)
          ≡ false)

  answers_lem :
      (grant : ApprovalGrant) (k : RunKernel)
      → assert_approval_matches_request host grant.approval_id grant.run_id grant.scope
          (some grant.granted_at)
          k
        ≡ ok tt
      → Answers k grant
  unfolding assert_approval_matches_request same_approval_scope
  answers_lem grant k h =
      let (request, is_found, h1) =
        bind-eq-ok
          (found
            (find (λ candidate. candidate.approval_id == grant.approval_id) k.approval_requests) _)
          _ h in
      let (m, same) =
        find_witness (λ candidate. candidate.approval_id == grant.approval_id) k.approval_requests
          (found-eq-ok _ _ is_found) in
      let (run, h2) = then-eq-ok (fail_if _ _) _ h1 in
      let (equal, hashed, h3) = bind-eq-ok (same_hash host _ _) _ h2 in
      let (scoped, in_time) = then-eq-ok (fail_if _ _) _ h3 in
      (
        request,
        m,
        (string_has_eq.beq_iff _ _).0 same,
        (string_has_eq.beq_iff _ _).0 (fail_unless-eq-ok _ _ run),
        same_hash_lem host _ _ equal hashed (fail_unless-eq-ok equal _ scoped),
        fail_if-eq-ok _ _ in_time,
      )

  covers_lem :
      (decision : WritePreflightDecision) (approval : Option String) (k : RunKernel)
      → assert_approval host decision approval k ≡ ok tt
      → Covers k decision approval
  unfolding assert_approval same_approval_scope
  covers_lem decision approval k h =
      let (approval_id, named, h1) = bind-eq-ok (found approval _) _ h in
      let (grant, is_found, h2) =
        bind-eq-ok
          (found (find (λ candidate. candidate.approval_id == approval_id) k.approval_grants) _) _
          h1 in
      let (m, same) =
        find_witness (λ candidate. candidate.approval_id == approval_id) k.approval_grants
          (found-eq-ok _ _ is_found) in
      let (equal, hashed, h3) = bind-eq-ok (same_hash host _ _) _ h2 in
      let (scoped, h4) = then-eq-ok (fail_if _ _) _ h3 in
      let (not_denied, h5) = then-eq-ok (fail_if _ _) _ h4 in
      let id : grant.approval_id ≡ approval_id = (string_has_eq.beq_iff _ _).0 same in
      let not_expired = fail_if-eq-ok _ _ h5 in
      (
        grant,
        m,
        rw id (found-eq-ok approval _ named),
        same_hash_lem host _ _ equal hashed (fail_unless-eq-ok equal _ scoped),
        or_false _ _ not_expired,
      )

  approved_lem :
      (decision : WritePreflightDecision) (approval : Option String) (k : RunKernel)
      → decision.verdict ≡ allowed approval
      → decision.side_effect_class ≡ SideEffectClass.critical_write
      → assert_critical_write_approval host decision k ≡ ok tt
      → Covers k decision approval
  unfolding assert_critical_write_approval
  approved_lem decision approval k verdict class h =
      let h' = subst (λ v. assert_verdict_approval host decision v k ≡ ok tt) verdict h in
      covers_lem decision approval k (taken _ _ h' ((side_effect_class_has_eq.beq_iff _ _).1 class))

  module _ (clock : ℕ → String) (k : RunKernel) (run : IsRun host clock k) where
    -- Every grant of a kernel answers a recorded request of its run and of its scope, and was not
    -- given after the request expired.
    pub grant-Answers : (grant : ApprovalGrant) → Memᴰ grant k.approval_grants → Answers k grant
    unfolding grant_guard
    grant-Answers grant m =
        let (j, grown, before, passed) = (origins host k (run-Grown host clock k run)).5 grant m in
        let (_, matches) = then-eq-ok (entry _ grant.run_id j) _ passed in
        let (request, r, same, run, scope, in_time) = answers_lem grant j matches in
        (request, before.approvals request r, same, run, scope, in_time)

    -- Every recorded decision that allows a critical write names the approval of a recorded grant
    -- whose scope is that of the write, which had not expired when the decision was made, and which
    -- answers a recorded request of its scope.
    pub critical_writes_approved :
        (decision : WritePreflightDecision) (approval : Option String)
        → Memᴰ decision k.write_preflight_decisions
        → decision.verdict ≡ allowed approval
        → decision.side_effect_class ≡ SideEffectClass.critical_write
        → (grant : ApprovalGrant) × Memᴰ grant k.approval_grants
          × (approval ≡ some grant.approval_id)
          × SameScope grant.scope (write_preflight_approval_scope decision)
          × (date_later (host.date_parse decision.decided_at) (host.date_parse grant.expires_at)
              ≡ false)
          × Answers k grant
    unfolding decision_guard
    critical_writes_approved decision approval m verdict class =
        let (j, grown, before, passed) =
          (origins host k (run-Grown host clock k run)).10 decision m in
        let (_, h1) = then-eq-ok (entry _ decision.run_id j) _ passed in
        let (_, approved) =
          then-eq-ok (assert_write_preflight_decision_matches_request decision j) _ h1 in
        let (grant, g, named, scoped, in_time) =
          approved_lem decision approval j verdict class approved in
        let recorded : Memᴰ grant k.approval_grants = before.grants grant g in
        (grant, recorded, named, scoped, in_time, grant-Answers grant recorded)
