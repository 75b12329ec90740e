-- ===== src/Proof/Engine/Claims.antt =====
-- packages/proof/src/proof-engine.ts: the ladder of tests on a claim as one condition.
use amca_core.Common.{
  ℕ, String, Bool, true, false, not, ◌&&◌, Option, none, some, ◌≡◌, refl, sym, ap, ◌∙◌, List, [],
  ◌∷◌, filter, find, any, if◌then◌else◌, arith,
}
use amca_core.Common.Equality.{◌==◌}
use amca_core.Protocol.Json.{Fields}
use amca_core.Protocol.Host.{Host}
use amca_core.Protocol.Evidence.{
  EvidenceKind, EvidenceRef, ExternalStateObservation, effect_receipt, external_observation,
}
use amca_core.Protocol.Effects.{EffectReceipt, succeeded, effect_status_has_eq}
use amca_core.Protocol.Claims.{Claim, CurrentStatePredicate, claim_type_has_eq}
use amca_core.Proof.Resolver.{
  Resolved, filter_evidence_refs_by_kind, resolve_effect_receipts,
  resolve_external_state_observations, resolve,
}
use amca_core.Proof.Predicates.{
  current_state_identity_matches, observation_is_fresh, observed_state_satisfies_predicate,
}
use amca_core.Proof.Evaluation.{
  ProofEvaluationInput, ClaimEvaluation, supported_claim, missing_evidence_claim,
  unverified_receipt_claim, unsupported, stale,
}
use amca_core.Proof.Engine.{
  is_empty, supported_by, claim_receipts, claim_observations, evaluate_receipt_claim,
  evaluate_current_state_claim,
}

module _ {ℓ} {A : Type ℓ} where
  abbrev is_found : Option A → Bool
  is_found none = false
  is_found (some a) = true

  is_found-find : (p : A → Bool) (xs : List A) → is_found (find p xs) ≡ any p xs
  is_found-find p [] = refl
  is_found-find p (x ∷ xs) = ground (arith, is_found-find p xs)

  any-filter : (p q : A → Bool) (xs : List A) → any p (filter q xs) ≡ any (λ x. q x && p x) xs
  any-filter p q [] = refl
  any-filter p q (x ∷ xs) = ground (arith, any-filter p q xs)

  filter_of_empty :
      (p : A → Bool) (xs : List A) → is_empty xs ≡ true → is_empty (filter p xs) ≡ true
  filter_of_empty p [] h = refl
  filter_of_empty p (x ∷ xs) h = cc

  any_of_empty : (p : A → Bool) (xs : List A) → is_empty xs ≡ true → any p xs ≡ false
  any_of_empty p [] h = refl
  any_of_empty p (x ∷ xs) h = cc

abbrev pub is_supported : ClaimEvaluation → Bool
is_supported evaluation = evaluation.claim_proof.supported

-- One test of the ladder, whose branch rejects.
rung :
    (b : Bool) (e f : ClaimEvaluation)
    → is_supported e ≡ false
    → is_supported (if b then e else f) ≡ (not b && is_supported f)
rung true e f h = h
rung false e f h = refl

-- A test whose branch rejects, where the rest of the ladder rejects too if the test passes.
absorb :
    (b : Bool) (e f : ClaimEvaluation)
    → is_supported e ≡ false
    → (b ≡ true → is_supported f ≡ false)
    → is_supported (if b then e else f) ≡ is_supported f
absorb true e f h k = h ∙ sym (k refl)
absorb false e f h k = refl

supported_by_supported :
    {S : Type 0} (claim : Claim) (found : Option (Resolved S)) (otherwise : ClaimEvaluation)
    → is_supported otherwise ≡ false
    → is_supported (supported_by claim found otherwise) ≡ is_found found
unfolding supported_claim
supported_by_supported claim none otherwise h = h
supported_by_supported claim (some m) otherwise h = refl

none_matches :
    (matches : EffectReceipt → Bool) (receipts : List (Resolved EffectReceipt))
    → is_empty receipts ≡ true
    → (not (any (λ r. not (r.source.status == succeeded)) receipts)
        && any (λ r. matches r.source) receipts)
      ≡ false
none_matches matches [] h = refl
none_matches matches (r ∷ rs) h = cc

module _ (host : Host) (input : ProofEvaluationInput) (claim : Claim) where
  missing_rejects :
      (i : ℕ) (kind : EvidenceKind)
      → is_supported (missing_evidence_claim input claim i kind) ≡ false
  unfolding missing_evidence_claim
  missing_rejects i kind = refl

  unverified_rejects :
      (i : ℕ) (refs : List EvidenceRef)
      → is_supported (unverified_receipt_claim input claim i refs) ≡ false
  unfolding unverified_receipt_claim
  unverified_rejects i refs = refl

  unsupported_rejects :
      (i : ℕ) (message : String) (expected : Fields)
      → is_supported (unsupported input claim i message expected) ≡ false
  unfolding unsupported
  unsupported_rejects i message expected = refl

  stale_rejects :
      (predicate : CurrentStatePredicate) (i : ℕ)
      → is_supported (stale input claim predicate i) ≡ false
  unfolding stale
  stale_rejects predicate i = refl

  receipts_of_no_refs :
      is_empty (filter_evidence_refs_by_kind claim.evidence_refs effect_receipt) ≡ true
      → is_empty (claim_receipts host input claim) ≡ true
  unfolding claim_receipts resolve_effect_receipts resolve
  receipts_of_no_refs h = ground arith

  observations_of_no_refs :
      is_empty (filter_evidence_refs_by_kind claim.evidence_refs external_observation) ≡ true
      → is_empty (claim_observations host input claim) ≡ true
  unfolding claim_observations resolve_external_state_observations resolve
  observations_of_no_refs h = ground arith

  supported_when_found :
      {S : Type 0} (p : Resolved S → Bool) (rs : List (Resolved S)) (i : ℕ) (message : String)
      (expected : Fields)
      → is_supported (supported_by claim (find p rs) (unsupported input claim i message expected))
        ≡ any p rs
  supported_when_found p rs i message expected =
      supported_by_supported claim (find p rs) _ (unsupported_rejects i message expected)
      ∙ is_found-find p rs

  -- A claim about an effect is supported exactly when every receipt that its references resolve to has
  -- succeeded and one of them matches.
  pub receipt_claim_supported :
      (matches : EffectReceipt → Bool) (message : String) (expected : Fields) (i : ℕ)
      → is_supported (evaluate_receipt_claim host input claim matches message expected i) ≡ (
          not (any (λ r. not (r.source.status == succeeded)) (claim_receipts host input claim))
          && any (λ r. matches r.source) (claim_receipts host input claim))
  unfolding evaluate_receipt_claim
  receipt_claim_supported matches message expected i =
      let receipts = claim_receipts host input claim in
      let last =
        rung (any (λ r. not (r.source.status == succeeded)) receipts) _ _ (unverified_rejects i _)
        ∙ ap
            (λ b.
              not
                (any (λ (r : Resolved EffectReceipt). not (r.source.status == succeeded)) receipts)
              && b)
            (supported_when_found (λ r. matches r.source) receipts i message expected) in
      let second =
        absorb (is_empty receipts) _ _ (unverified_rejects i _)
          (λ h. last ∙ none_matches matches receipts h) in
      absorb _ _ _ (missing_rejects i effect_receipt)
        (λ h. second ∙ (last ∙ none_matches matches receipts (receipts_of_no_refs h)))
      ∙ (second ∙ last)

  -- A claim about the current state is supported exactly when an observation that its references
  -- resolve to is of its subject, fresh, and satisfies it.
  pub current_state_supported :
      (predicate : CurrentStatePredicate) (i : ℕ)
      → is_supported (evaluate_current_state_claim host input claim predicate i)
        ≡ any
            (λ r.
              current_state_identity_matches r.source predicate
              && (observation_is_fresh host r.source predicate.freshness_requirement_ms
                    input.generated_at
                  && observed_state_satisfies_predicate r.source predicate))
            (claim_observations host input claim)
  unfolding evaluate_current_state_claim
  current_state_supported predicate i =
      let observations = claim_observations host input claim in
      let is_same = λ (r : Resolved ExternalStateObservation).
        current_state_identity_matches r.source predicate in
      let is_fresh = λ (r : Resolved ExternalStateObservation).
        observation_is_fresh host r.source predicate.freshness_requirement_ms input.generated_at in
      let satisfies = λ (r : Resolved ExternalStateObservation).
        observed_state_satisfies_predicate r.source predicate in
      let same = filter is_same observations in
      let fresh = filter is_fresh same in
      let none_left = any_of_empty satisfies fresh in
      let at_match = supported_when_found satisfies fresh i _ _ in
      let at_fresh =
        absorb (is_empty fresh) _ _ (stale_rejects predicate i) (λ h. at_match ∙ none_left h)
        ∙ at_match in
      let at_same =
        absorb (is_empty same) _ _ (unsupported_rejects i _ _)
          (λ h. at_fresh ∙ none_left (filter_of_empty is_fresh same h))
        ∙ at_fresh in
      let empty_of_no_observations = λ (h : is_empty observations ≡ true).
        none_left (filter_of_empty is_fresh same (filter_of_empty is_same observations h)) in
      let at_observations =
        absorb (is_empty observations) _ _ (unsupported_rejects i _ _)
          (λ h. at_same ∙ empty_of_no_observations h)
        ∙ at_same in
      absorb _ _ _ (missing_rejects i external_observation)
        (λ h. at_observations ∙ empty_of_no_observations (observations_of_no_refs h))
      ∙ (at_observations ∙ (any-filter satisfies is_fresh same ∙ any-filter _ is_same observations))
