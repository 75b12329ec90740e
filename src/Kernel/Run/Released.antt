-- ===== src/Kernel/Run/Released.antt =====
-- packages/kernel/src/run-kernel.ts: what submitFinalCandidate returns.
use mathlib.Core.Path.{ap₂}
use amca_core.Common.{ℕ, String, ◌≡◌, sym, ap, ◌∙◌, inl, inr}
use amca_core.Common.Outcome.{ok, err, ok_inj, Result-cases}
use amca_core.Protocol.Host.{Host}
use amca_core.Protocol.Claims.{FinalCandidate}
use amca_core.Protocol.Payloads.{RunEventPayload}
use amca_core.Proof.Engine.{evaluate_proof}
use amca_core.Kernel.Events.{Event}
use amca_core.Kernel.InMemoryLedger.{InMemoryLedger}
use amca_core.Kernel.ReleaseGate.{decide_release}
use amca_core.Kernel.Run.{RunKernel, Check, after}
use amca_core.Kernel.Run.Append.{KernelEventOptions, or_else, append_event, record_event}
use amca_core.Kernel.Run.Submit.{
  SubmitOptions, SubmitFinalCandidateResult, proof_input, prove_and_release, submit_final_candidate,
  final_candidate_guard,
}
use amca_core.Kernel.Run.Keeps.{after-returns}
use amca_core.Kernel.Run.Passed.{entry_lem}
use amca_core.Kernel.Run.Trail.{Trail, with_log, append_event-Trail}

module _ (host : Host) (clock : ℕ → String) where
  -- A recording that returned pushed its input onto a state with a longer log.
  pub record_event_returns :
      (guard : RunKernel → Check (Unit {0})) (payload : RunEventPayload)
      (options : KernelEventOptions) (push : RunKernel → RunKernel) (k : RunKernel) (event : Event)
      → (record_event host clock guard payload options push k).0 ≡ ok event
      → (guard k ≡ ok tt)
        × ((ledger : InMemoryLedger) × (ticks : ℕ) × ((record_event host clock guard payload options
                push k).1
              ≡ push (with_log k ledger ticks)))
  unfolding record_event after
  record_event_returns guard payload options push k event h = elim (Result-cases (guard k)) [
    | inl (a, accepted) ↦ (
      accepted,
      rw accepted (
          go (append_event host clock payload _ k) (append_event-Trail host clock payload _ k)
            (rw accepted at h)),
    )
    | inr (e, refused) ↦ cc (rw refused at h)
  ]
    where
      go :
          (r : Check Event × RunKernel)
          → Trail host k r.1
          → (after (λ event l. (ok event, push l)) r).0 ≡ ok event
          → (ledger : InMemoryLedger) × (ticks : ℕ) × ((after (λ event l. (ok event, push l)) r).1
              ≡ push (with_log k ledger ticks))
      go (ok event, l) trail h =
          let (ledger, ticks, same) = trail.same in (ledger, ticks, ap push same)
      go (err e, l) trail h = cc

  -- What follows the event of the proposal, where it returns.
  proved_and_released :
      (candidate : FinalCandidate) (options : SubmitOptions) (event : Event) (k : RunKernel)
      (result : SubmitFinalCandidateResult)
      → (prove_and_release host clock candidate options event k).0 ≡ ok result
      → let input =
          proof_input candidate options (or_else options.generated_at event.occurred_at) k in
        (result.proof ≡ evaluate_proof host input)
        × (result.decision
            ≡ decide_release host
                (record { candidate = candidate; proof = evaluate_proof host input }))
        × (result.proposal_event ≡ event)
  unfolding prove_and_release
  proved_and_released candidate options event k result h =
      let (_, _, h1, _) = after-returns _ _ h in
      let (proof, is_proof, h2, _) = after-returns _ _ h1 in
      let (_, _, h3, _) = after-returns _ _ h2 in
      let (proof_event, _, h4, _) = after-returns _ _ h3 in
      let (mismatch_events, _, h5, _) = after-returns _ _ h4 in
      let (_, _, h6, _) = after-returns _ _ h5 in
      let (release_event, _, h7, _) = after-returns _ _ h6 in
      let (final, _, h8, _) = after-returns _ _ h7 in
      let same = ok_inj h8 in
      let is_proof' = ok_inj is_proof in
      (
        sym (ap (λ r. r.proof) same) ∙ sym is_proof',
        sym (ap (λ r. r.decision) same)
            ∙ ap (λ p. decide_release host (record { candidate = candidate; proof = p }))
                (sym is_proof'),
        sym (ap (λ r. r.proposal_event) same),
      )

  -- The proof of a submission that returns is the engine's, on the receipts and observations that the kernel
  -- had before it, at the time that the options give or else that of the event of the proposal, and its
  -- decision is the gate's on that proof. The candidate is of the run.
  pub submission_decides :
      (candidate : FinalCandidate) (options : SubmitOptions) (k : RunKernel)
      (result : SubmitFinalCandidateResult)
      → (submit_final_candidate host clock candidate options k).0 ≡ ok result
      → let input =
          proof_input candidate options
            (or_else options.generated_at result.proposal_event.occurred_at)
            k in
        (result.proof ≡ evaluate_proof host input)
        × (result.decision
            ≡ decide_release host
                (record { candidate = candidate; proof = evaluate_proof host input }))
        × (candidate.run_id ≡ k.run_id)
  unfolding submit_final_candidate final_candidate_guard
  submission_decides candidate options k result h =
      let (event, recorded, h1, _) = after-returns _ _ h in
      let (accepted, (ledger, ticks, same)) = record_event_returns _ _ _ _ k event recorded in
      let (proof, decision, cause) = proved_and_released candidate options event _ result h1 in
      let time = ap (λ e. or_else options.generated_at e.occurred_at) (sym cause) in
      let input = ap₂ (λ t l. proof_input candidate options t l) time same in
      (
        proof ∙ ap (λ i. evaluate_proof host i) input,
        decision
            ∙ ap
                (λ i.
                  decide_release host
                    (record { candidate = candidate; proof = evaluate_proof host i }))
                input,
        (entry_lem _ candidate.run_id k accepted).1,
      )
