-- ===== src/Kernel/Run/Origins.antt =====
-- packages/kernel/src/run-kernel.ts: where the members of the lists of a kernel come from.
use mathlib.Core.Path.{subst}
use mathlib.Core.List.{Memᴰ}
use amca_core.Common.{String, true, List, [], ◌∷◌, ◌++◌, ◌≡◌, refl, sym, inl, inr}
use amca_core.Common.Members.{snoc_cases}
use amca_core.Common.Outcome.{ok}
use amca_core.Protocol.Host.{Host}
use amca_core.Protocol.Evidence.{ExternalStateObservation}
use amca_core.Protocol.Effects.{EffectRequest, EffectReceipt}
use amca_core.Protocol.Preflight.{
  WritePreflightCandidate, WritePreflightDecision, WriteQuarantineState,
}
use amca_core.Protocol.Approvals.{ApprovalRequest, ApprovalGrant, ApprovalDenial, ApprovalExpiry}
use amca_core.Protocol.Mutations.{
  MutationCommandRequest, MutationCommitted, Proposal, tool_command, mutation_command,
  final_candidate,
}
use amca_core.Contracts.Schemas.Mutations.{mutation_committed_schema}
use amca_core.Kernel.Run.{RunKernel, Check}
use amca_core.Kernel.Run.Record.{
  tool_command_guard, mutation_command_guard, effect_request_guard, candidate_guard, decision_guard,
  quarantine_guard, approval_request_guard, grant_guard, denial_guard, expiry_guard, receipt_guard,
  observation_guard,
}
use amca_core.Kernel.Run.Commit.{state_revision, commit_guard, committed_mutation}
use amca_core.Kernel.Run.Submit.{final_candidate_guard}
use amca_core.Kernel.Run.Grown.{Grown}

-- The lists that checks look into, of an earlier state and of a later one.
pub record IsBefore (j k : RunKernel) : Type 0 where
  pub same_run : j.run_id ≡ k.run_id
  pub requests : (x : EffectRequest) → Memᴰ x j.effect_requests → Memᴰ x k.effect_requests
  pub candidates :
      (x : WritePreflightCandidate)
      → Memᴰ x j.write_preflight_candidates
      → Memᴰ x k.write_preflight_candidates
  pub decisions :
      (x : WritePreflightDecision)
      → Memᴰ x j.write_preflight_decisions
      → Memᴰ x k.write_preflight_decisions
  pub approvals : (x : ApprovalRequest) → Memᴰ x j.approval_requests → Memᴰ x k.approval_requests
  pub grants : (x : ApprovalGrant) → Memᴰ x j.approval_grants → Memᴰ x k.approval_grants
  pub proposed : (x : Proposal) → Memᴰ x j.proposals → Memᴰ x k.proposals

pub before :
    (j k : RunKernel)
    → j.run_id ≡ k.run_id
    → ((x : EffectRequest) → Memᴰ x j.effect_requests → Memᴰ x k.effect_requests)
    → ((x : WritePreflightCandidate)
        → Memᴰ x j.write_preflight_candidates
        → Memᴰ x k.write_preflight_candidates)
    → ((x : WritePreflightDecision)
        → Memᴰ x j.write_preflight_decisions
        → Memᴰ x k.write_preflight_decisions)
    → ((x : ApprovalRequest) → Memᴰ x j.approval_requests → Memᴰ x k.approval_requests)
    → ((x : ApprovalGrant) → Memᴰ x j.approval_grants → Memᴰ x k.approval_grants)
    → ((x : Proposal) → Memᴰ x j.proposals → Memᴰ x k.proposals)
    → IsBefore j k
before j k a b c d e f g = record {
  same_run = a;
  requests = b;
  candidates = c;
  decisions = d;
  approvals = e;
  grants = f;
  proposed = g;
}

later : (i j k : RunKernel) → IsBefore i j → IsBefore j k → IsBefore i k
later i j k a b = record {
  same_run = rw (a.same_run, b.same_run) refl;
  requests = λ x m. b.requests x (a.requests x m);
  candidates = λ x m. b.candidates x (a.candidates x m);
  decisions = λ x m. b.decisions x (a.decisions x m);
  approvals = λ x m. b.approvals x (a.approvals x m);
  grants = λ x m. b.grants x (a.grants x m);
  proposed = λ x m. b.proposed x (a.proposed x m);
}

module _ (host : Host) where
  -- The check of a proposal when it is submitted.
  abbrev pub proposal_guard : Proposal → RunKernel → Check (Unit {0})
  proposal_guard (tool_command x) k = tool_command_guard host x k
  proposal_guard (mutation_command x) k = mutation_command_guard host x k
  proposal_guard (final_candidate x) k = final_candidate_guard host x k

  pub record Commit (j : RunKernel) (mutation : MutationCommitted) : Type 0 where
    pub command : MutationCommandRequest
    pub committed_at : String
    pub payload_hash : String
    pub made :
        mutation
        ≡ committed_mutation command (state_revision j command.state_ref) committed_at payload_hash
    pub allowed : commit_guard host command j ≡ ok tt
    pub accepted : mutation_committed_schema host mutation ≡ true

  -- An earlier state at which a check passed.
  abbrev pub Origin : RunKernel → (RunKernel → Type 0) → Type 0
  Origin k Check = (j : RunKernel) × Grown host j × IsBefore j k × Check j

  abbrev pub From : {A : Type 0} → RunKernel → (A → RunKernel → Type 0) → List A → Type 0
  From k Check xs = (x : _) → Memᴰ x xs → Origin k (Check x)

  -- The lists of `l`, before `k`.
  abbrev pub Origins : RunKernel → RunKernel → Type 0
  Origins k l =
      From k (λ (x : EffectRequest) j. effect_request_guard host x j ≡ ok tt) l.effect_requests
      × From k
          (λ (x : EffectReceipt) j. (event_id : String) × (receipt_guard host x event_id j ≡ ok tt))
          l.effect_receipts
      × From k
          (λ (x : ExternalStateObservation) j.
            (event_id : String) × (observation_guard host x event_id j ≡ ok tt))
          l.external_state_observations
      × From k (λ (x : MutationCommitted) j. Commit j x) l.mutations
      × From k (λ (x : ApprovalRequest) j. approval_request_guard host x j ≡ ok tt)
          l.approval_requests
      × From k (λ (x : ApprovalGrant) j. grant_guard host x j ≡ ok tt) l.approval_grants
      × From k (λ (x : ApprovalDenial) j. denial_guard host x j ≡ ok tt) l.approval_denials
      × From k (λ (x : ApprovalExpiry) j. expiry_guard host x j ≡ ok tt) l.approval_expiries
      × From k (λ (x : Proposal) j. proposal_guard x j ≡ ok tt) l.proposals
      × From k (λ (x : WritePreflightCandidate) j. candidate_guard host x j ≡ ok tt)
          l.write_preflight_candidates
      × From k (λ (x : WritePreflightDecision) j. decision_guard host x j ≡ ok tt)
          l.write_preflight_decisions
      × From k (λ (x : WriteQuarantineState) j. quarantine_guard host x j ≡ ok tt)
          l.write_quarantine_states

  pub lift :
      {A : Type 0} {Check : A → RunKernel → Type 0} {xs : List A} (k k' : RunKernel)
      → IsBefore k k'
      → From k Check xs
      → From k' Check xs
  lift k k' step from x m =
      let (j, grown, before, c) = from x m in (j, grown, later j k k' before step, c)

  pub carry : (k k' l : RunKernel) → IsBefore k k' → Origins k l → Origins k' l
  carry k k' l step (a, b, c, d, e, f, p, q, r, s, t, u) = (
    lift {xs = l.effect_requests} k k' step a,
    lift {xs = l.effect_receipts} k k' step b,
    lift {xs = l.external_state_observations} k k' step c,
    lift {xs = l.mutations} k k' step d,
    lift {xs = l.approval_requests} k k' step e,
    lift {xs = l.approval_grants} k k' step f,
    lift {xs = l.approval_denials} k k' step p,
    lift {xs = l.approval_expiries} k k' step q,
    lift {xs = l.proposals} k k' step r,
    lift {xs = l.write_preflight_candidates} k k' step s,
    lift {xs = l.write_preflight_decisions} k k' step t,
    lift {xs = l.write_quarantine_states} k k' step u,
  )

  pub snoc :
      {A : Type 0} {Check : A → RunKernel → Type 0} (xs : List A) (y : A) (k k' : RunKernel)
      → IsBefore k k'
      → Grown host k
      → Check y k
      → From k Check xs
      → From k' Check (xs ++ y ∷ [])
  snoc {A} {Check} xs y k k' step grown c from x m = elim (snoc_cases xs m) [
    | inl old ↦ lift {xs = xs} k k' step from x old
    | inr new ↦ subst (λ z. Origin k' (Check z)) (sym new) (k, grown, step, c)
  ]
