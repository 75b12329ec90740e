-- ===== src/Kernel/Run/Growth.antt =====
-- packages/kernel/src/run-kernel.ts: every method makes its writes one by one, each after its checks.
use mathlib.Core.Path.{subst}
use amca_core.Common.{ℕ, ◌+◌, String, Bool, true, false, Option, List, [], ◌∷◌, ◌≡◌, refl, sym}
use amca_core.Common.Outcome.{ok, ok_inj}
use amca_core.Protocol.Json.{Fields}
use amca_core.Protocol.Host.{Host}
use amca_core.Protocol.Claims.{FinalCandidate}
use amca_core.Protocol.Proofs.{Mismatch, released, blocked, repair, quarantined, ReleaseDecision}
use amca_core.Protocol.Mutations.{MutationCommandRequest}
use amca_core.Contracts.Schemas.Mutations.{mutation_committed_schema}
use amca_core.Kernel.Events.{Event}
use amca_core.Kernel.Run.{RunKernel, parse}
use amca_core.Kernel.Run.Append.{KernelEventOptions, assert_started, assert_input_run_id}
use amca_core.Kernel.Run.Guards.{entry, assert_mutation_was_proposed}
use amca_core.Kernel.Run.Record.{start_run}
use amca_core.Kernel.Run.Commit.{
  commit_guard, commit_mutation, committed_mutation, push_mutation, state_revision,
}
use amca_core.Kernel.Run.Submit.{
  SubmitOptions, record_mismatches, record_final, prove_and_release, submit_final_candidate,
  final_candidate_guard,
}
use amca_core.Kernel.Run.Keeps.{after-Keeps, after-leads, after-checked}
use amca_core.Kernel.Run.Grown.{Grown}
use amca_core.Kernel.Run.Trail.{Trail, chain, time-Trail, append_event-Trail, record_event-Grown}

module _ (host : Host) (clock : ℕ → String) where
  pub start_run-Grown :
      (profile : Option String) (metadata : Option Fields) (options : KernelEventOptions)
      (k : RunKernel)
      → Grown host k
      → Grown host (start_run host clock profile metadata options k).1
  unfolding start_run
  start_run-Grown profile metadata options k grown = after-Keeps (Grown host) _ _ grown λ _ l g.
      after-Keeps (Grown host) _ _ g λ run_id l g.
        after-Keeps (Grown host) _ _ ((append_event-Trail host clock _ _ l).grows g)
          λ event l g. after-Keeps (Grown host) _ _ (Grown.started l event.event_id g) λ _ l g. g

  pub parse_lem : (b : Bool) {u : Unit} → parse b ≡ ok u → b ≡ true
  parse_lem true h = refl
  parse_lem false h = cc

  pushed_mutation :
      (command : MutationCommandRequest) (committed_at payload_hash : String) (l : RunKernel)
      (current : ℕ)
      → Grown host l
      → commit_guard host command l ≡ ok tt
      → state_revision l command.state_ref ≡ current
      → mutation_committed_schema host
          (committed_mutation command current committed_at payload_hash)
        ≡ true
      → Grown host (push_mutation (committed_mutation command current committed_at payload_hash) l)
  pushed_mutation command committed_at payload_hash l current grown allowed is_current accepted =
      let made = λ (n : ℕ). committed_mutation command n committed_at payload_hash in
      let schema =
        subst (λ n. mutation_committed_schema host (made n) ≡ true) (sym is_current) accepted in
      subst (λ n. Grown host (push_mutation (made n) l)) is_current
        (Grown.mutation_committed l command committed_at payload_hash grown allowed schema)

  pub commit_mutation-Grown :
      (command : MutationCommandRequest) (options : KernelEventOptions) (k : RunKernel)
      → Grown host k
      → Grown host (commit_mutation host clock command options k).1
  unfolding commit_mutation commit_guard entry assert_started assert_input_run_id
      assert_mutation_was_proposed
  commit_mutation-Grown command options k grown =
      after-checked (Grown host) _ (commit_guard host command k) k grown λ _ allowed.
        after-checked (Grown host) _ (ok (state_revision k command.state_ref)) k grown
          λ current is_current.
            after-leads (Trail host k) (Grown host) _ _
              (time-Trail host clock options.occurred_at k) (λ l t. t.grows grown)
              λ committed_at l t.
                after-leads (Trail host k) (Grown host) _ _ t (λ l t. t.grows grown)
                  λ payload_hash l t.
                    after-checked (Grown host) _
                      (parse (
                        mutation_committed_schema host
                          (committed_mutation command current committed_at payload_hash)))
                      l (t.grows grown)
                      λ _ accepted.
                        after-leads (Trail host k) (Grown host) _ _ t (λ l t. t.grows grown)
                          λ options_now l t.
                            after-leads (Trail host k) (Grown host) _ _
                              (chain host k l _ t (append_event-Trail host clock _ _ l))
                              (λ l t. t.grows grown)
                              λ event l t.
                                let (ledger, ticks, same) = t.same in
                                pushed_mutation command committed_at payload_hash l current
                                  (t.grows grown) (rw same allowed) (rw same (ok_inj is_current))
                                  (parse_lem _ accepted)

  mismatches-Grown :
      (options : SubmitOptions) (generated_at : String) (proof_event : Event) (index : ℕ)
      (mismatches : List Mismatch) (k : RunKernel)
      → Grown host k
      → Grown host
          (record_mismatches host clock options generated_at proof_event index mismatches k).1
  unfolding record_mismatches
  mismatches-Grown options generated_at proof_event index [] k grown = grown
  mismatches-Grown options generated_at proof_event index (m ∷ ms) k grown =
      after-Keeps (Grown host) _ _ grown λ _ l g. after-Keeps (Grown host) _ _ g λ _ l g.
        after-Keeps (Grown host) _ _ ((append_event-Trail host clock _ _ l).grows g) λ event l g.
          after-Keeps (Grown host) _ _
            (mismatches-Grown options generated_at proof_event (index + 1) ms l g) λ events l g. g

  final-Grown :
      (options : SubmitOptions) (generated_at : String) (event : Event) (candidate : FinalCandidate)
      (decision : ReleaseDecision) (k : RunKernel)
      → Grown host k
      → Grown host (record_final host clock options generated_at event candidate decision k).1
  final-Grown options generated_at event candidate (released ids message) k grown =
      after-Keeps (Grown host) _ _ ((append_event-Trail host clock _ _ k).grows grown)
        λ event l g. g
  final-Grown options generated_at event candidate (blocked ids messages) k grown = grown
  final-Grown options generated_at event candidate (repair ids messages) k grown = grown
  final-Grown options generated_at event candidate (quarantined ids reason) k grown = grown

  prove_and_release-Grown :
      (candidate : FinalCandidate) (options : SubmitOptions) (event : Event) (k : RunKernel)
      → Grown host k
      → Grown host (prove_and_release host clock candidate options event k).1
  unfolding prove_and_release
  prove_and_release-Grown candidate options event k grown =
      after-Keeps (Grown host) _ _ grown λ _ l g. after-Keeps (Grown host) _ _ g λ proof l g.
        after-Keeps (Grown host) _ _ g λ _ l g.
          after-Keeps (Grown host) _ _ ((append_event-Trail host clock _ _ l).grows g)
            λ proof_event l g.
              after-Keeps (Grown host) _ _
                (mismatches-Grown options _ proof_event 0 proof.blocking_mismatches l g)
                λ mismatch_events l g. after-Keeps (Grown host) _ _ g λ _ l g.
                  after-Keeps (Grown host) _ _ ((append_event-Trail host clock _ _ l).grows g)
                    λ release_event l g.
                      after-Keeps (Grown host) _ _
                        (final-Grown options _ release_event candidate _ l g) λ final l g. g

  pub submit_final_candidate-Grown :
      (candidate : FinalCandidate) (options : SubmitOptions) (k : RunKernel)
      → Grown host k
      → Grown host (submit_final_candidate host clock candidate options k).1
  unfolding submit_final_candidate final_candidate_guard entry assert_started assert_input_run_id
  submit_final_candidate-Grown candidate options k grown =
      after-Keeps (Grown host) _ _
        (record_event-Grown host clock (final_candidate_guard host candidate) _
          options.event_options _ (λ k ledger ticks. refl)
          (λ k g h. Grown.candidate_proposed k candidate g h) k grown)
        λ event l g. prove_and_release-Grown candidate options event l g
