-- ===== src/Kernel/ReleaseGate/Safety.antt =====
-- packages/kernel/src/release-gate.ts: the claims of a released candidate.
use mathlib.Core.List.{Memᴰ}
use amca_core.Common.{ℕ, ◌+◌, true, ◌≡◌, sym, ◌∙◌, List, [], ◌∷◌, all, arith}
use amca_core.Protocol.Host.{Host}
use amca_core.Protocol.Claims.{Claim, predicate_kind}
use amca_core.Proof.Evaluation.{ProofEvaluationInput}
use amca_core.Proof.Engine.{evaluate_claim, evaluations_from, blocking_of, evaluate_proof, is_empty}
use amca_core.Proof.Engine.Claims.{is_supported}
use amca_core.Proof.Engine.Backing.{Backing, supported_is_backed}
use amca_core.Proof.Engine.Verdict.{proofs_of, unblocked-eq_supported}
use amca_core.Kernel.ReleaseGate.Decisions.{is_released, release_of, released_exact}

module _ (host : Host) (input : ProofEvaluationInput) where
  member_supported :
      (i : ℕ) (claims : List Claim) (claim : Claim)
      → all (λ p. p.supported) (proofs_of (evaluations_from host input i claims)) ≡ true
      → Memᴰ claim claims
      → (j : ℕ) × (is_supported (evaluate_claim host input claim j) ≡ true)
  unfolding evaluations_from
  member_supported i [] claim h m = elim m [ ]
  member_supported i (c ∷ cs) claim h (Memᴰ.head e) = (i, rw e (ground (arith, h)))
  member_supported i (c ∷ cs) claim h (Memᴰ.tail m) =
      member_supported (i + 1) cs claim (ground (arith, h)) m

  unblocked_release :
      is_released (release_of host input) ≡ true
      → is_empty (blocking_of (evaluations_from host input 0 input.candidate.claims)) ≡ true
  unfolding evaluate_proof
  unblocked_release h = ground (
    arith,
    released_exact host (record { candidate = input.candidate; proof = evaluate_proof host input }),
  )

  -- Where the gate behind the engine releases, every claim of the candidate has the type of its
  -- predicate and rests on evidence: a receipt or an observation recorded for the run, whose hash is
  -- that of its payload, to which a reference of the claim is bound by that hash, and which satisfies
  -- the predicate.
  pub released_claims_backed :
      is_released (release_of host input) ≡ true
      → (claim : Claim) → Memᴰ claim input.candidate.claims
      → (claim.type ≡ predicate_kind claim.predicate) × Backing host input claim claim.predicate
  released_claims_backed h claim m =
      let supported =
        sym (unblocked-eq_supported host input 0 input.candidate.claims) ∙ unblocked_release h in
      let (j, holds) = member_supported 0 input.candidate.claims claim supported m in
      supported_is_backed host input claim j holds
