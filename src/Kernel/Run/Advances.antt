-- ===== src/Kernel/Run/Advances.antt =====
-- packages/kernel/src/run-kernel.ts: what commitMutation returns, and what decisions are recorded.
use amca_core.Common.{ℕ, ◌+◌, String, ◌≡◌, ◌≢◌, refl, sym, ap, ◌∙◌, inl, inr, Bool-cases}
use amca_core.Common.Equality.{◌==◌, string_has_eq, nat_has_eq}
use amca_core.Common.Outcome.{ok, ok_inj}
use amca_core.Protocol.Host.{Host}
use amca_core.Protocol.Mutations.{MutationCommandRequest}
use amca_core.Kernel.Events.{Event}
use amca_core.Kernel.InMemoryLedger.{InMemoryLedger}
use amca_core.Kernel.Run.{RunKernel}
use amca_core.Kernel.Run.Append.{KernelEventOptions}
use amca_core.Kernel.Run.Commit.{state_revision, commit_mutation, committed_mutation, push_mutation}
use amca_core.Kernel.Run.Matched.{allowed_lem}
use amca_core.Kernel.Run.Keeps.{after-returns}
use amca_core.Kernel.Run.Trail.{with_log, chain, time-Trail, append_event-Trail}

module _ (host : Host) (clock : ℕ → String) where
  pushed_lem :
      (command : MutationCommandRequest) (k : RunKernel) (current : ℕ)
      (committed_at payload_hash : String) (ledger : InMemoryLedger) (ticks : ℕ)
      → state_revision k command.state_ref ≡ current
      → let k' =
          push_mutation
            (committed_mutation command current committed_at payload_hash)
            (with_log k ledger ticks) in
        (state_revision k' command.state_ref ≡ current + 1)
        × ((ref : String) → ref ≢ command.state_ref → state_revision k' ref ≡ state_revision k ref)
  unfolding committed_mutation
  pushed_lem command k current committed_at payload_hash ledger ticks is_current = (
    rw ((string_has_eq.beq_iff command.state_ref command.state_ref).1 refl) refl,
    λ ref other. elim (Bool-cases (ref == command.state_ref)) [
      | inl hit ↦ absurd (other ((string_has_eq.beq_iff _ _).0 hit))
      | inr miss ↦ rw miss refl
    ],
  )

  -- A commit that returns was of the revision that the command expects; it moves the part of the state that
  -- the command names to the next revision, and no other part.
  pub commit_advances :
      (command : MutationCommandRequest) (options : KernelEventOptions) (k : RunKernel)
      (event : Event)
      → (commit_mutation host clock command options k).0 ≡ ok event
      → let k' = (commit_mutation host clock command options k).1 in
        (command.expected_revision ≡ state_revision k command.state_ref)
        × (state_revision k' command.state_ref ≡ command.expected_revision + 1)
        × ((ref : String) → ref ≢ command.state_ref → state_revision k' ref ≡ state_revision k ref)
  unfolding commit_mutation
  commit_advances command options k event h =
      let (_, allowed, h1, e1) = after-returns _ _ h in
      let (current, is_current, h2, e2) = after-returns _ _ h1 in
      let (committed_at, _, h3, e3) = after-returns _ _ h2 in
      let (payload_hash, _, h4, e4) = after-returns _ _ h3 in
      let (_, _, h5, e5) = after-returns _ _ h4 in
      let (options_now, _, h6, e6) = after-returns _ _ h5 in
      let (made, _, h7, e7) = after-returns _ _ h6 in
      let ends = e1 ∙ e2 ∙ e3 ∙ e4 ∙ e5 ∙ e6 ∙ e7 in
      let t =
        chain host k _ _ (time-Trail host clock options.occurred_at k)
          (append_event-Trail host clock _ options_now _) in
      let (ledger, ticks, same) = t.same in
      let (_, expected) = allowed_lem host command k (allowed ∙ refl) in
      let (moved, others) =
        pushed_lem command k current committed_at payload_hash ledger ticks (ok_inj is_current) in
      let final =
        ap (λ r. r.1) ends
        ∙ ap (push_mutation (committed_mutation command current committed_at payload_hash)) same in
      (
        sym expected,
        ap (λ l. state_revision l command.state_ref) final
            ∙ moved
            ∙ ap (λ n. n + 1) (sym (ok_inj is_current) ∙ expected),
        λ ref other. ap (λ l. state_revision l ref) final ∙ others ref other,
      )
