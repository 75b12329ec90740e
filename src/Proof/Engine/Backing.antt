-- ===== src/Proof/Engine/Backing.antt =====
-- packages/proof/src/proof-engine.ts: what stands behind a claim.
use mathlib.Core.List.{Memᴰ}
use amca_core.Common.{
  ℕ, String, Bool, true, not, ◌&&◌, some, ◌≡◌, sym, ◌∙◌, List, any, arith, Bool-cases, inl, inr,
}
use amca_core.Common.Members.{any_witness, filter_member, all_member}
use amca_core.Common.Equality.{◌==◌, string_has_eq, str_eq_iff, option_eq_iff}
use amca_core.Protocol.Host.{Host}
use amca_core.Protocol.Evidence.{
  EvidenceKind, EvidenceRef, ExternalStateObservation, effect_receipt, external_observation,
  evidence_kind_has_eq,
}
use amca_core.Protocol.Effects.{EffectReceipt, succeeded, effect_status_has_eq}
use amca_core.Protocol.Claims.{
  Claim, ClaimPredicate, historical, test, current, predicate_kind, claim_type_has_eq,
}
use amca_core.Proof.Resolver.{
  Resolved, filter_evidence_refs_by_kind, resolve_effect_receipts,
  resolve_external_state_observations, evidence_refs_match,
}
use amca_core.Proof.Resolver.Members.{resolve_member}
use amca_core.Proof.Predicates.{
  test_result_receipt_matches, historical_action_receipt_matches, current_state_identity_matches,
  observation_is_fresh, observed_state_satisfies_predicate, canonical_object_hash,
  payload_hash_holds, evidence_is_bound, receipt_is_admitted, observation_is_admitted,
  admitted_effect_receipts, admitted_external_state_observations,
}
use amca_core.Proof.Evaluation.{ProofEvaluationInput, unsupported}
use amca_core.Proof.Engine.{
  claim_receipts, claim_observations, evaluate_test_result_claim, evaluate_historical_action_claim,
  evaluate_predicate, evaluate_claim,
}
use amca_core.Proof.Engine.Claims.{is_supported, receipt_claim_supported, current_state_supported}

-- The references of a source with the hash of its payload, and a reference of the claim to it.
bound_hash :
    (kind : EvidenceKind) (payload_hash : String) (refs : List EvidenceRef)
    (claim_ref source_ref : EvidenceRef)
    → evidence_is_bound kind payload_hash refs ≡ true
    → Memᴰ source_ref refs
    → evidence_refs_match claim_ref source_ref ≡ true
    → claim_ref.hash ≡ payload_hash
unfolding evidence_is_bound evidence_refs_match
bound_hash kind payload_hash refs claim_ref source_ref bound m match =
    let at_ref = all_member _ refs bound m in
    ground (
      arith,
      at_ref,
      str_eq_iff claim_ref.hash source_ref.hash,
      str_eq_iff source_ref.hash payload_hash,
    )

module _ (host : Host) (input : ProofEvaluationInput) (claim : Claim) where
  -- A receipt of this run, hashed as it says, to which the claim refers by that hash.
  pub record ReceiptBacks (receipt : EffectReceipt) (claim_ref : EvidenceRef) : Type 0 where
    pub recorded : Memᴰ receipt input.effect_receipts
    pub referenced : Memᴰ claim_ref claim.evidence_refs
    pub same_run : receipt.run_id ≡ input.candidate.run_id
    pub hashed : some receipt.payload_hash ≡ canonical_object_hash host receipt.payload
    pub bound : claim_ref.hash ≡ receipt.payload_hash

  pub record ObservationBacks (observation : ExternalStateObservation) (claim_ref : EvidenceRef)
      : Type 0 where
    pub recorded : Memᴰ observation input.external_state_observations
    pub referenced : Memᴰ claim_ref claim.evidence_refs
    pub same_run : observation.run_id ≡ input.candidate.run_id
    pub hashed :
        some observation.payload_hash ≡ canonical_object_hash host observation.observed_state
    pub bound : claim_ref.hash ≡ observation.payload_hash

  receipt_backs :
      (r : Resolved EffectReceipt)
      → Memᴰ r (claim_receipts host input claim)
      → ReceiptBacks r.source r.claim_evidence_ref
  unfolding claim_receipts resolve_effect_receipts filter_evidence_refs_by_kind
      admitted_effect_receipts receipt_is_admitted payload_hash_holds
  receipt_backs r m =
      let i = resolve_member _ _ _ m in
      let (recorded, admitted) = filter_member _ _ i.from_source in
      let (referenced, kind) = filter_member _ _ i.referenced in
      record {
        recorded = recorded;
        referenced = referenced;
        same_run = ground (arith, str_eq_iff r.source.run_id input.candidate.run_id);
        hashed = ground (
          arith,
          option_eq_iff (some r.source.payload_hash) (canonical_object_hash host r.source.payload),
        );
        bound =
            bound_hash effect_receipt r.source.payload_hash r.source.evidence r.claim_evidence_ref
              r.source_evidence_ref (ground arith) i.carried i.matching;
      }

  observation_backs :
      (r : Resolved ExternalStateObservation)
      → Memᴰ r (claim_observations host input claim)
      → ObservationBacks r.source r.claim_evidence_ref
  unfolding claim_observations resolve_external_state_observations filter_evidence_refs_by_kind
      admitted_external_state_observations observation_is_admitted payload_hash_holds
  observation_backs r m =
      let i = resolve_member _ _ _ m in
      let (recorded, admitted) = filter_member _ _ i.from_source in
      let (referenced, kind) = filter_member _ _ i.referenced in
      record {
        recorded = recorded;
        referenced = referenced;
        same_run = ground (arith, str_eq_iff r.source.run_id input.candidate.run_id);
        hashed = ground (
          arith,
          option_eq_iff (some r.source.payload_hash)
              (canonical_object_hash host r.source.observed_state),
        );
        bound =
            bound_hash external_observation r.source.payload_hash r.source.evidence
              r.claim_evidence_ref r.source_evidence_ref (ground arith) i.carried i.matching;
      }

  -- What a supported claim rests on: a receipt that backs it and matches its predicate, or an
  -- observation that backs it, is of its subject, fresh at the time of the proof, and satisfies it.
  abbrev pub Backing : ClaimPredicate → Type 0
  Backing (historical predicate) =
      (receipt : EffectReceipt) × (claim_ref : EvidenceRef) × ReceiptBacks receipt claim_ref
      × (historical_action_receipt_matches receipt predicate ≡ true)
  Backing (test predicate) =
      (receipt : EffectReceipt) × (claim_ref : EvidenceRef) × ReceiptBacks receipt claim_ref
      × (test_result_receipt_matches receipt predicate ≡ true)
  Backing (current predicate) =
      (observation : ExternalStateObservation) × (claim_ref : EvidenceRef) × ObservationBacks
        observation claim_ref
      × (current_state_identity_matches observation predicate ≡ true)
      × (observation_is_fresh host observation predicate.freshness_requirement_ms input.generated_at
          ≡ true)
      × (observed_state_satisfies_predicate observation predicate ≡ true)

  matching_receipt :
      (matches : EffectReceipt → Bool)
      → (not (any (λ r. not (r.source.status == succeeded)) (claim_receipts host input claim))
          && any (λ r. matches r.source) (claim_receipts host input claim))
        ≡ true
      → (receipt : EffectReceipt) × (claim_ref : EvidenceRef) × ReceiptBacks receipt claim_ref
        × (matches receipt ≡ true)
  matching_receipt matches h =
      let (r, m, hit) =
        any_witness (λ r. matches r.source) (claim_receipts host input claim) (ground arith) in
      (r.source, r.claim_evidence_ref, receipt_backs r m, hit)

  predicate_rests :
      (predicate : ClaimPredicate) (i : ℕ)
      → is_supported (evaluate_predicate host input claim predicate i) ≡ true
      → Backing predicate
  unfolding evaluate_predicate evaluate_historical_action_claim evaluate_test_result_claim
  predicate_rests (historical predicate) i h =
      matching_receipt _ (sym (receipt_claim_supported host input claim _ _ _ i) ∙ h)
  predicate_rests (test predicate) i h =
      matching_receipt _ (sym (receipt_claim_supported host input claim _ _ _ i) ∙ h)
  predicate_rests (current predicate) i h =
      let (r, m, hit) =
        any_witness _ (claim_observations host input claim)
          (sym (current_state_supported host input claim predicate i) ∙ h) in
      (
        r.source,
        r.claim_evidence_ref,
        observation_backs r m,
        ground arith,
        ground arith,
        ground arith,
      )

  type_checked :
      (i : ℕ)
      → is_supported (evaluate_claim host input claim i) ≡ true
      → (claim.type ≡ predicate_kind claim.predicate)
        × (is_supported (evaluate_predicate host input claim claim.predicate i) ≡ true)
  unfolding evaluate_claim unsupported
  type_checked i h = elim (Bool-cases (claim.type == predicate_kind claim.predicate)) [
    | inl same ↦ ((claim_type_has_eq.beq_iff _ _).0 same, rw same at h)
    | inr apart ↦ cc (rw apart at h)
  ]

  -- A claim that the engine supports has the type of its predicate, and rests on evidence: a receipt
  -- or an observation recorded for the run, whose hash is that of its payload, to which a reference of
  -- the claim is bound by that hash, and which satisfies the predicate.
  pub supported_is_backed :
      (i : ℕ)
      → is_supported (evaluate_claim host input claim i) ≡ true
      → (claim.type ≡ predicate_kind claim.predicate) × Backing claim.predicate
  supported_is_backed i h =
      let (same, inner) = type_checked i h in (same, predicate_rests claim.predicate i inner)
