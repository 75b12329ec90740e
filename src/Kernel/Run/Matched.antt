-- ===== src/Kernel/Run/Matched.antt =====
-- packages/kernel/src/run-kernel.ts: the requests behind decisions, and the proposals behind mutations.
use mathlib.Core.Path.{subst}
use mathlib.Core.List.{Memᴰ}
use amca_core.Common.{
  ℕ, String, Bool, true, false, ◌&&◌, some, ◌≡◌, refl, sym, List, [], ◌∷◌, find, Bool-cases, inl,
  inr, some_inj,
}
use amca_core.Common.Members.{find_witness}
use amca_core.Common.Equality.{◌==◌, string_has_eq, option_has_eq, nat_has_eq}
use amca_core.Common.Outcome.{ok, bind-eq-ok}
use amca_core.Protocol.Json.{obj}
use amca_core.Protocol.Host.{Host}
use amca_core.Protocol.Effects.{side_effect_class_has_eq}
use amca_core.Protocol.Preflight.{WritePreflightCandidate, WritePreflightDecision}
use amca_core.Protocol.Mutations.{
  MutationCommandRequest, MutationCommitted, Proposal, tool_command, mutation_command,
  final_candidate,
}
use amca_core.Contracts.Canonical.{canonical_hash}
use amca_core.Contracts.Json.Mutations.{mutation_command_request_fields}
use amca_core.Kernel.Run.{RunKernel, fail_if}
use amca_core.Kernel.Run.Guards.{
  found, entry, same_hash, find_command, assert_mutation_was_proposed,
  assert_mutation_command_payload_hash,
}
use amca_core.Kernel.Run.Writes.{
  candidate_is_decided, write_preflight_candidate_by_id,
  assert_write_preflight_decision_matches_request,
}
use amca_core.Kernel.Run.Record.{decision_guard}
use amca_core.Kernel.Run.Commit.{commit_guard, committed_mutation, state_revision}
use amca_core.Kernel.Run.Steps.{IsRun}
use amca_core.Kernel.Run.Runs.{run-Grown}
use amca_core.Kernel.Run.Traced.{origins}
use amca_core.Kernel.Run.Passed.{then-eq-ok, fail_unless-eq-ok, found-eq-ok, same_hash_lem}

and_parts : (a b : Bool) → (a && b) ≡ true → (a ≡ true) × (b ≡ true)
and_parts true b h = (refl, h)
and_parts false b h = cc

-- The same write.
abbrev pub SameWrite : WritePreflightCandidate → WritePreflightDecision → Type 0
SameWrite candidate decision =
    (candidate.preflight_id ≡ decision.preflight_id)
    × (candidate.run_id ≡ decision.run_id)
    × (candidate.command_id ≡ decision.command_id)
    × (candidate.capability_id ≡ decision.capability_id)
    × (candidate.tool_id ≡ decision.tool_id)
    × (candidate.side_effect_class ≡ decision.side_effect_class)
    × (candidate.idempotency_key ≡ decision.idempotency_key)

decided_lem :
    (candidate : WritePreflightCandidate) (decision : WritePreflightDecision)
    → (candidate.preflight_id == decision.preflight_id) ≡ true
    → candidate_is_decided candidate decision ≡ true
    → SameWrite candidate decision
unfolding candidate_is_decided
decided_lem candidate decision id h =
    let (run, h1) = and_parts _ _ h in
    let (command, h2) = and_parts _ _ h1 in
    let (capability, h3) = and_parts _ _ h2 in
    let (tool, h4) = and_parts _ _ h3 in
    let (class, key) = and_parts _ _ h4 in
    (
      (string_has_eq.beq_iff _ _).0 id,
      (string_has_eq.beq_iff _ _).0 run,
      (string_has_eq.beq_iff _ _).0 command,
      (string_has_eq.beq_iff _ _).0 capability,
      (string_has_eq.beq_iff _ _).0 tool,
      (side_effect_class_has_eq.beq_iff _ _).0 class,
      (option_has_eq.beq_iff _ _).0 key,
    )

matches_lem :
    (decision : WritePreflightDecision) (k : RunKernel)
    → assert_write_preflight_decision_matches_request decision k ≡ ok tt
    → (candidate : WritePreflightCandidate) × Memᴰ candidate k.write_preflight_candidates
      × SameWrite candidate decision
unfolding assert_write_preflight_decision_matches_request write_preflight_candidate_by_id
matches_lem decision k h =
    let (candidate, is_found, h1) =
      bind-eq-ok
        (found
          (find (λ candidate. candidate.preflight_id == decision.preflight_id)
            k.write_preflight_candidates)
          _)
        _ h in
    let (m, id) =
      find_witness (λ candidate. candidate.preflight_id == decision.preflight_id)
        k.write_preflight_candidates (found-eq-ok _ _ is_found) in
    let (decided, _) = then-eq-ok (fail_if _ _) _ h1 in
    (candidate, m, decided_lem candidate decision id (fail_unless-eq-ok _ _ decided))

find_command_lem :
    (command : MutationCommandRequest) (xs : List Proposal) (p : MutationCommandRequest)
    → find_command command xs ≡ some p
    → Memᴰ (mutation_command p) xs
      × (p.command_id ≡ command.command_id)
      × (p.mutation_id ≡ command.mutation_id)
find_command_lem command [] p h = cc
find_command_lem command (tool_command x ∷ xs) p h =
    let (m, a, b) = find_command_lem command xs p h in (Memᴰ.tail m, a, b)
find_command_lem command (final_candidate x ∷ xs) p h =
    let (m, a, b) = find_command_lem command xs p h in (Memᴰ.tail m, a, b)
find_command_lem command (mutation_command x ∷ xs) p h =
    elim (Bool-cases (x.command_id == command.command_id && x.mutation_id == command.mutation_id)) [
      | inl hit ↦
          let same : x ≡ p = some_inj (rw hit at h) in
          let (a, b) = and_parts _ _ hit in
          subst
            (λ q.
              Memᴰ (mutation_command q) (mutation_command x ∷ xs)
              × (q.command_id ≡ command.command_id)
              × (q.mutation_id ≡ command.mutation_id))
            same (Memᴰ.head refl, (string_has_eq.beq_iff _ _).0 a, (string_has_eq.beq_iff _ _).0 b)
      | inr miss ↦
          let (m, a, b) = find_command_lem command xs p (rw miss at h) in (Memᴰ.tail m, a, b)
    ]

-- The command that a mutation commits.
abbrev pub Commits : MutationCommandRequest → MutationCommitted → Type 0
Commits command mutation =
    (mutation.mutation_id ≡ command.mutation_id)
    × (mutation.command_id ≡ command.command_id)
    × (mutation.state_ref ≡ command.state_ref)
    × (mutation.operation ≡ command.operation)
    × (mutation.previous_revision ≡ command.expected_revision)

commits_lem :
    (command : MutationCommandRequest) (current : ℕ) (committed_at payload_hash : String)
    → current ≡ command.expected_revision
    → Commits command (committed_mutation command current committed_at payload_hash)
unfolding committed_mutation
commits_lem command current committed_at payload_hash expected = (refl, refl, refl, refl, expected)

module _ (host : Host) where
  -- A proposal with the ids of a command and with its canonical hash.
  abbrev pub Proposed : RunKernel → MutationCommandRequest → Type 0
  Proposed k command =
      (p : MutationCommandRequest) × Memᴰ (mutation_command p) k.proposals
      × (p.command_id ≡ command.command_id)
      × (p.mutation_id ≡ command.mutation_id)
      × ((hash : String) × (canonical_hash host (obj (mutation_command_request_fields p)) ≡ ok hash)
          × (canonical_hash host (obj (mutation_command_request_fields command)) ≡ ok hash))

  proposed_lem :
      (command : MutationCommandRequest) (k : RunKernel)
      → assert_mutation_was_proposed host command k ≡ ok tt
      → Proposed k command
  unfolding assert_mutation_was_proposed
  proposed_lem command k h =
      let (p, is_found, h1) = bind-eq-ok (found (find_command command k.proposals) _) _ h in
      let (equal, hashed, h2) = bind-eq-ok (same_hash host _ _) _ h1 in
      let (m, a, b) = find_command_lem command k.proposals p (found-eq-ok _ _ is_found) in
      (p, m, a, b, same_hash_lem host _ _ equal hashed (fail_unless-eq-ok equal _ h2))

  pub allowed_lem :
      (command : MutationCommandRequest) (k : RunKernel)
      → commit_guard host command k ≡ ok tt
      → Proposed k command × (state_revision k command.state_ref ≡ command.expected_revision)
  unfolding commit_guard
  allowed_lem command k h =
      let (_, h1) = then-eq-ok (entry _ command.run_id k) _ h in
      let (_, h2) = then-eq-ok (assert_mutation_command_payload_hash host command) _ h1 in
      let (proposed, h3) = then-eq-ok (assert_mutation_was_proposed host command k) _ h2 in
      (proposed_lem command k proposed, (nat_has_eq.beq_iff _ _).0 (fail_unless-eq-ok _ _ h3))

  module _ (clock : ℕ → String) (k : RunKernel) (run : IsRun host clock k) where
    -- After any calls, every recorded decision on a write is about a recorded candidate: its preflight, run,
    -- command, capability, tool, side effect class and idempotency key are those of the candidate.
    pub decisions_match :
        (decision : WritePreflightDecision)
        → Memᴰ decision k.write_preflight_decisions
        → (candidate : WritePreflightCandidate) × Memᴰ candidate k.write_preflight_candidates
          × SameWrite candidate decision
    unfolding decision_guard
    decisions_match decision m =
        let (j, grown, before, passed) =
          (origins host k (run-Grown host clock k run)).10 decision m in
        let (_, h1) = then-eq-ok (entry _ decision.run_id j) _ passed in
        let (matches, _) =
          then-eq-ok (assert_write_preflight_decision_matches_request decision j) _ h1 in
        let (candidate, c, same) = matches_lem decision j matches in
        (candidate, before.candidates candidate c, same)

    -- After any calls, every committed mutation carries out a command with its ids, part of the state and
    -- operation, which expected the revision that the mutation started from, and a proposal with the same ids
    -- and the same canonical hash as the command is recorded.
    pub mutations-Proposed :
        (mutation : MutationCommitted)
        → Memᴰ mutation k.mutations
        → (command : MutationCommandRequest) × Commits command mutation × Proposed k command
    mutations-Proposed mutation m =
        let (j, grown, before, commit) =
          (origins host k (run-Grown host clock k run)).3 mutation m in
        let ((p, q, a, b, same), expected) = allowed_lem commit.command j commit.allowed in
        (
          commit.command,
          subst (Commits commit.command) (sym commit.made) (
              commits_lem commit.command (state_revision j commit.command.state_ref)
                commit.committed_at commit.payload_hash expected),
          (p, before.proposed (mutation_command p) q, a, b, same),
        )
