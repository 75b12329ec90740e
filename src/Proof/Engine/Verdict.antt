-- ===== src/Proof/Engine/Verdict.antt =====
-- packages/proof/src/proof-engine.ts: the verdict of a proof and its lists of claims.
use amca_core.Common.{
  ℕ, ◌+◌, String, Bool, true, false, not, ◌&&◌, Option, none, some, ◌≡◌, ◌≢◌, ◌⊎◌, refl, sym, ◌∙◌,
  List, [], ◌∷◌, ◌++◌, map, filter, all, if◌then◌else◌, arith, Bool-cases, inl, inr,
}
use amca_core.Protocol.Json.{Fields}
use amca_core.Protocol.Host.{Host}
use amca_core.Protocol.Evidence.{EvidenceKind, EvidenceRef}
use amca_core.Protocol.Effects.{EffectReceipt}
use amca_core.Protocol.Claims.{
  Claim, ClaimPredicate, CurrentStatePredicate, historical, test, current,
}
use amca_core.Protocol.Proofs.{Mismatch, ClaimProof, pass, fail}
use amca_core.Proof.Resolver.{Resolved}
use amca_core.Proof.Evaluation.{
  ProofEvaluationInput, ClaimEvaluation, supported_claim, missing_evidence_claim,
  unverified_receipt_claim, unsupported, stale,
}
use amca_core.Proof.Engine.{
  supported_by, is_empty, evaluate_receipt_claim, evaluate_test_result_claim,
  evaluate_historical_action_claim, evaluate_current_state_claim, evaluate_predicate,
  evaluate_claim, evaluations_from, blocking_of, evaluate_proof,
}

-- An evaluation of a claim carries its id; it supports the claim and has no mismatch, or rejects it
-- with one mismatch, which blocks and names the run and the claim.
pub data IsEvaluation (run_id : String) (claim : Claim) (e : ClaimEvaluation) : Type 0 where
  supports :
      e.claim_proof.claim_id ≡ claim.claim_id
      → e.claim_proof.supported ≡ true
      → e.mismatches ≡ []
      → IsEvaluation run_id claim e
  rejects :
      (m : Mismatch)
      → e.claim_proof.claim_id ≡ claim.claim_id
      → e.claim_proof.supported ≡ false
      → e.mismatches ≡ m ∷ []
      → m.blocking ≡ true
      → m.run_id ≡ run_id
      → m.claim_id ≡ some claim.claim_id
      → IsEvaluation run_id claim e

module _ (host : Host) (input : ProofEvaluationInput) (claim : Claim) where
  missing_lem :
      (i : ℕ) (k : EvidenceKind)
      → IsEvaluation input.candidate.run_id claim (missing_evidence_claim input claim i k)
  unfolding missing_evidence_claim
  missing_lem i k = rejects _ refl refl refl refl refl refl

  unverified_lem :
      (i : ℕ) (refs : List EvidenceRef)
      → IsEvaluation input.candidate.run_id claim (unverified_receipt_claim input claim i refs)
  unfolding unverified_receipt_claim
  unverified_lem i refs = rejects _ refl refl refl refl refl refl

  unsupported_lem :
      (i : ℕ) (message : String) (expected : Fields)
      → IsEvaluation input.candidate.run_id claim (unsupported input claim i message expected)
  unfolding unsupported
  unsupported_lem i message expected = rejects _ refl refl refl refl refl refl

  stale_lem :
      (predicate : CurrentStatePredicate) (i : ℕ)
      → IsEvaluation input.candidate.run_id claim (stale input claim predicate i)
  unfolding stale
  stale_lem predicate i = rejects _ refl refl refl refl refl refl

  branch_lem :
      (b : Bool) (e f : ClaimEvaluation)
      → IsEvaluation input.candidate.run_id claim e
      → IsEvaluation input.candidate.run_id claim f
      → IsEvaluation input.candidate.run_id claim (if b then e else f)
  branch_lem true e f p q = p
  branch_lem false e f p q = q

  supported_by_lem :
      {S : Type 0} (found : Option (Resolved S)) (otherwise : ClaimEvaluation)
      → IsEvaluation input.candidate.run_id claim otherwise
      → IsEvaluation input.candidate.run_id claim (supported_by claim found otherwise)
  unfolding supported_claim
  supported_by_lem none otherwise h = h
  supported_by_lem (some r) otherwise h = supports refl refl refl

  receipt_claim_lem :
      (matches : EffectReceipt → Bool) (message : String) (expected : Fields) (i : ℕ)
      → IsEvaluation input.candidate.run_id claim
          (evaluate_receipt_claim host input claim matches message expected i)
  unfolding evaluate_receipt_claim
  receipt_claim_lem matches message expected i =
      search (branch_lem, missing_lem, unverified_lem, unsupported_lem, supported_by_lem) depth 8

  current_state_lem :
      (predicate : CurrentStatePredicate) (i : ℕ)
      → IsEvaluation input.candidate.run_id claim
          (evaluate_current_state_claim host input claim predicate i)
  unfolding evaluate_current_state_claim
  current_state_lem predicate i =
      search (branch_lem, missing_lem, unsupported_lem, stale_lem, supported_by_lem) depth 8

  predicate_lem :
      (predicate : ClaimPredicate) (i : ℕ)
      → IsEvaluation input.candidate.run_id claim (evaluate_predicate host input claim predicate i)
  unfolding evaluate_predicate evaluate_historical_action_claim evaluate_test_result_claim
  predicate_lem (historical predicate) i = receipt_claim_lem _ _ _ i
  predicate_lem (test predicate) i = receipt_claim_lem _ _ _ i
  predicate_lem (current predicate) i = current_state_lem predicate i

  -- The evaluation of a claim carries the claim's id, and either supports the claim with no mismatch, or
  -- rejects it with exactly one mismatch, which blocks and names the run of the candidate and the claim.
  pub evaluate_claim_lem :
      (i : ℕ) → IsEvaluation input.candidate.run_id claim (evaluate_claim host input claim i)
  unfolding evaluate_claim
  evaluate_claim_lem i = search (branch_lem, unsupported_lem, predicate_lem)

module _ {run_id : String} {claim : Claim} {e : ClaimEvaluation} where
  blocking-eq_not :
      IsEvaluation run_id claim e
      → is_empty (filter (λ m. m.blocking) e.mismatches) ≡ e.claim_proof.supported
  blocking-eq_not (supports c s m) = rw (m, s)
  blocking-eq_not (rejects m c s ms b r k) = rw (ms, s) (rw b)

  evaluated_id : IsEvaluation run_id claim e → e.claim_proof.claim_id ≡ claim.claim_id
  evaluated_id (supports c s m) = c
  evaluated_id (rejects m c s ms b r k) = c

is_empty-append {ℓ} :
    {A : Type ℓ} (xs ys : List A) → is_empty (xs ++ ys) ≡ (is_empty xs && is_empty ys)
is_empty-append [] ys = refl
is_empty-append (x ∷ xs) ys = refl

abbrev pub proofs_of : List ClaimEvaluation → List ClaimProof
proofs_of = map (λ evaluation. evaluation.claim_proof)

abbrev pub claim_ids : List Claim → List String
claim_ids = map (λ claim. claim.claim_id)

module _ (host : Host) (input : ProofEvaluationInput) where
  pub unblocked-eq_supported :
      (i : ℕ) (claims : List Claim)
      → is_empty (blocking_of (evaluations_from host input i claims))
        ≡ all (λ p. p.supported) (proofs_of (evaluations_from host input i claims))
  unfolding blocking_of evaluations_from
  unblocked-eq_supported i [] = refl
  unblocked-eq_supported i (claim ∷ claims) = rw (
    is_empty-append,
    blocking-eq_not (evaluate_claim_lem host input claim i),
    unblocked-eq_supported (i + 1) claims,
  )

  proved_ids :
      (i : ℕ) (claims : List Claim)
      → map (λ p. p.claim_id) (proofs_of (evaluations_from host input i claims)) ≡ claim_ids claims
  unfolding evaluations_from
  proved_ids i [] = refl
  proved_ids i (claim ∷ claims) =
      rw (evaluated_id (evaluate_claim_lem host input claim i), proved_ids (i + 1) claims)

-- The lists of supported and of rejected claims.
approved : List ClaimProof → List String
approved ps = map (λ p. p.claim_id) (filter (λ p. p.supported) ps)

rejected : List ClaimProof → List String
rejected ps = map (λ p. p.claim_id) (filter (λ p. not p.supported) ps)

approved_of_all :
    (ps : List ClaimProof)
    → all (λ p. p.supported) ps ≡ true
    → (approved ps ≡ map (λ p. p.claim_id) ps) × (rejected ps ≡ [])
unfolding approved rejected
approved_of_all [] h = (refl, refl)
approved_of_all (p ∷ ps) h = ground (arith, approved_of_all ps)

some_rejected :
    (ps : List ClaimProof) → all (λ p. p.supported) ps ≡ false → is_empty (rejected ps) ≡ false
unfolding rejected
some_rejected [] h = cc
some_rejected (p ∷ ps) h = ground (arith, some_rejected ps)

empty_list {ℓ} : {A : Type ℓ} (xs : List A) → is_empty xs ≡ true → xs ≡ []
empty_list [] h = refl
empty_list (x ∷ xs) h = cc

nonempty_list {ℓ} : {A : Type ℓ} (xs : List A) → is_empty xs ≡ false → xs ≢ []
nonempty_list [] h e = cc
nonempty_list (x ∷ xs) h e = cc

-- A proof passes with every claim approved, none rejected and no blocking mismatch, or fails with a
-- rejected claim and a blocking mismatch. It has one claim proof for each claim, in their order.
pub verdict_exact :
    (host : Host) (input : ProofEvaluationInput)
    → let proof = evaluate_proof host input in
      (((proof.verdict ≡ pass)
          × (proof.approved_claim_ids ≡ claim_ids input.candidate.claims)
          × (proof.rejected_claim_ids ≡ [])
          × (proof.blocking_mismatches ≡ []))
        ⊎ ((proof.verdict ≡ fail)
            × (proof.rejected_claim_ids ≢ [])
            × (proof.blocking_mismatches ≢ [])))
      × (map (λ p. p.claim_id) proof.claims ≡ claim_ids input.candidate.claims)
unfolding evaluate_proof approved rejected
verdict_exact host input =
    let evaluations = evaluations_from host input 0 input.candidate.claims in
    let ids = proved_ids host input 0 input.candidate.claims in
    let unblocked = unblocked-eq_supported host input 0 input.candidate.claims in
    elim (Bool-cases (is_empty (blocking_of evaluations))) [
      | inl clear ↦
          let (yes_ids, no_ids) = approved_of_all (proofs_of evaluations) (sym unblocked ∙ clear) in
          (inl (rw clear, yes_ids ∙ ids, no_ids, empty_list _ clear), ids)
      | inr held ↦
          let some_no = some_rejected (proofs_of evaluations) (sym unblocked ∙ held) in
          (inr (rw held, nonempty_list _ some_no, nonempty_list _ held), ids)
    ]
