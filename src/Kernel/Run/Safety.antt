-- ===== src/Kernel/Run/Safety.antt =====
-- packages/kernel/src/run-kernel.ts: the claims of a candidate that a kernel releases.
use mathlib.Core.List.{Memᴰ}
use amca_core.Common.{ℕ, String, true, ◌≡◌, sym, ap, ◌∙◌}
use amca_core.Common.Outcome.{ok}
use amca_core.Protocol.Host.{Host}
use amca_core.Protocol.Evidence.{ExternalStateObservation}
use amca_core.Protocol.Effects.{EffectReceipt}
use amca_core.Protocol.Claims.{
  FinalCandidate, Claim, ClaimPredicate, historical, test, current, predicate_kind,
}
use amca_core.Proof.Predicates.{
  test_result_receipt_matches, historical_action_receipt_matches, current_state_identity_matches,
  observation_is_fresh, observed_state_satisfies_predicate,
}
use amca_core.Proof.Engine.Backing.{Backing}
use amca_core.Kernel.ReleaseGate.Decisions.{is_released}
use amca_core.Kernel.ReleaseGate.Safety.{released_claims_backed}
use amca_core.Kernel.Run.{RunKernel}
use amca_core.Kernel.Run.Append.{or_else}
use amca_core.Kernel.Run.Submit.{
  SubmitOptions, SubmitFinalCandidateResult, proof_input, submit_final_candidate,
}
use amca_core.Kernel.Run.Steps.{IsRun}
use amca_core.Kernel.Run.Admitted.{Requested, receipt_admitted}
use amca_core.Kernel.Run.Released.{submission_decides}

-- A recorded receipt that answers a recorded request, or a recorded observation that was fresh at the time.
abbrev pub RestsOn : Host → RunKernel → String → ClaimPredicate → Type 0
RestsOn host k time (historical predicate) =
    (receipt : EffectReceipt) × Memᴰ receipt k.effect_receipts
    × Requested k receipt
    × (historical_action_receipt_matches receipt predicate ≡ true)
RestsOn host k time (test predicate) =
    (receipt : EffectReceipt) × Memᴰ receipt k.effect_receipts
    × Requested k receipt
    × (test_result_receipt_matches receipt predicate ≡ true)
RestsOn host k time (current predicate) =
    (observation : ExternalStateObservation) × Memᴰ observation k.external_state_observations
    × (current_state_identity_matches observation predicate ≡ true)
    × (observation_is_fresh host observation predicate.freshness_requirement_ms time ≡ true)
    × (observed_state_satisfies_predicate observation predicate ≡ true)

module _ (host : Host) (clock : ℕ → String) (k : RunKernel) (run : IsRun host clock k) where
  requested : (receipt : EffectReceipt) → Memᴰ receipt k.effect_receipts → Requested k receipt
  requested receipt m = (receipt_admitted host clock k run receipt m).1

  rests_lem :
      (candidate : FinalCandidate) (options : SubmitOptions) (time : String) (claim : Claim)
      (predicate : ClaimPredicate)
      → Backing host (proof_input candidate options time k) claim predicate
      → RestsOn host k time predicate
  rests_lem candidate options time claim (historical predicate) (receipt, ref, backs, matches) =
      (receipt, backs.recorded, requested receipt backs.recorded, matches)
  rests_lem candidate options time claim (test predicate) (receipt, ref, backs, matches) =
      (receipt, backs.recorded, requested receipt backs.recorded, matches)
  rests_lem candidate options time claim (current predicate)
        (observation, ref, backs, same, fresh, holds) =
      (observation, backs.recorded, same, fresh, holds)

  -- Where a kernel's submission returns a released decision, after any calls before it, every claim of the
  -- candidate has the type of its predicate, and rests on a receipt that the kernel had recorded, which
  -- matches the predicate and answers a recorded request, or on a recorded observation of its
  -- subject that satisfies the predicate and was fresh at the time of the proof.
  pub released_run_backed :
      (candidate : FinalCandidate) (options : SubmitOptions) (result : SubmitFinalCandidateResult)
      → (submit_final_candidate host clock candidate options k).0 ≡ ok result
      → is_released result.decision ≡ true
      → (claim : Claim) → Memᴰ claim candidate.claims
      → (claim.type ≡ predicate_kind claim.predicate)
        × RestsOn host k
            (or_else options.generated_at result.proposal_event.occurred_at)
            claim.predicate
  released_run_backed candidate options result h is_free claim m =
      let time = or_else options.generated_at result.proposal_event.occurred_at in
      let (_, decision, _) = submission_decides host clock candidate options k result h in
      let (same_type, backing) =
        released_claims_backed host (proof_input candidate options time k)
          (sym (ap is_released decision) ∙ is_free) claim m in
      (same_type, rests_lem candidate options time claim claim.predicate backing)
