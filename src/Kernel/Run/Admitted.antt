-- ===== src/Kernel/Run/Admitted.antt =====
-- packages/kernel/src/run-kernel.ts: the receipts and observations of a kernel.
use mathlib.Core.List.{Memᴰ}
use amca_core.Common.{ℕ, String, ◌≡◌, ◌∙◌, List, find}
use amca_core.Common.Members.{find_witness}
use amca_core.Common.Equality.{◌==◌, string_has_eq}
use amca_core.Common.Outcome.{ok, bind-eq-ok}
use amca_core.Protocol.Json.{obj}
use amca_core.Protocol.Host.{Host}
use amca_core.Protocol.Evidence.{EvidenceKind, EvidenceRef, ExternalStateObservation}
use amca_core.Protocol.Effects.{EffectRequest, EffectReceipt}
use amca_core.Contracts.Canonical.{canonical_hash}
use amca_core.Kernel.Run.{RunKernel}
use amca_core.Kernel.Run.Guards.{
  found, entry, assert_effect_request_for_receipt, assert_payload_hash,
}
use amca_core.Kernel.Run.Record.{receipt_guard, observation_guard}
use amca_core.Kernel.Run.Steps.{IsRun}
use amca_core.Kernel.Run.Runs.{run-Grown}
use amca_core.Kernel.Run.Traced.{origins}
use amca_core.Kernel.Run.Passed.{
  then-eq-ok, fail_unless-eq-ok, found-eq-ok, entry_lem, evidence_refs_lem, assert_hash_lem,
}

-- Every reference has the id, the kind and the hash of what admits it.
abbrev pub AreBound : List EvidenceRef → EvidenceKind → String → Type 0
AreBound refs kind hash =
    (source : String) × ((ref : EvidenceRef)
      → Memᴰ ref refs
      → (ref.source_event_id ≡ source) × (ref.kind ≡ kind) × (ref.hash ≡ hash))

abbrev pub Requested : RunKernel → EffectReceipt → Type 0
Requested k receipt =
    (request : EffectRequest) × Memᴰ request k.effect_requests
    × (request.effect_id ≡ receipt.effect_id)
    × (request.capability_id ≡ receipt.capability_id)

module _ (host : Host) where
  requested_lem :
      (receipt : EffectReceipt) (k : RunKernel)
      → assert_effect_request_for_receipt host receipt k ≡ ok tt
      → Requested k receipt
  unfolding assert_effect_request_for_receipt
  requested_lem receipt k h =
      let (request, is_found, h1) =
        bind-eq-ok
          (found (find (λ request. request.effect_id == receipt.effect_id) k.effect_requests) _) _
          h in
      let (m, same) =
        find_witness (λ request. request.effect_id == receipt.effect_id) k.effect_requests
          (found-eq-ok _ _ is_found) in
      (
        request,
        m,
        (string_has_eq.beq_iff _ _).0 same,
        (string_has_eq.beq_iff _ _).0 (fail_unless-eq-ok _ _ h1),
      )

  module _ (clock : ℕ → String) (k : RunKernel) (run : IsRun host clock k) where
    -- Every receipt of a kernel is of its run, answers a recorded request with its effect and its capability,
    -- has the hash of its payload, and has evidence only of its own kind and hash, from one event.
    pub receipt_admitted :
        (receipt : EffectReceipt)
        → Memᴰ receipt k.effect_receipts
        → (receipt.run_id ≡ k.run_id)
          × Requested k receipt
          × (canonical_hash host (obj receipt.payload) ≡ ok receipt.payload_hash)
          × AreBound receipt.evidence EvidenceKind.effect_receipt receipt.payload_hash
    unfolding receipt_guard assert_payload_hash
    receipt_admitted receipt m =
        let (j, grown, before, (event_id, passed)) =
          (origins host k (run-Grown host clock k run)).1 receipt m in
        let (entered, h1) = then-eq-ok (entry _ receipt.run_id j) _ passed in
        let (requested, h2) = then-eq-ok (assert_effect_request_for_receipt host receipt j) _ h1 in
        let (hashed, bound) =
          then-eq-ok (assert_payload_hash host receipt.payload receipt.payload_hash) _ h2 in
        let (_, same_run) = entry_lem _ receipt.run_id j entered in
        let (request, r, effect, capability) = requested_lem receipt j requested in
        (
          same_run ∙ before.same_run,
          (request, before.requests request r, effect, capability),
          assert_hash_lem host _ _ _ hashed,
          (event_id, evidence_refs_lem receipt.evidence event_id _ _ bound),
        )

    -- Every observation of a kernel is of its run, has the hash of the state it observed, and has evidence
    -- only of its own kind and hash, from one event.
    pub observation_admitted :
        (observation : ExternalStateObservation)
        → Memᴰ observation k.external_state_observations
        → (observation.run_id ≡ k.run_id)
          × (canonical_hash host (obj observation.observed_state) ≡ ok observation.payload_hash)
          × AreBound observation.evidence EvidenceKind.external_observation observation.payload_hash
    unfolding observation_guard assert_payload_hash
    observation_admitted observation m =
        let (j, grown, before, (event_id, passed)) =
          (origins host k (run-Grown host clock k run)).2 observation m in
        let (entered, h1) = then-eq-ok (entry _ observation.run_id j) _ passed in
        let (hashed, bound) =
          then-eq-ok (assert_payload_hash host observation.observed_state observation.payload_hash)
            _ h1 in
        let (_, same_run) = entry_lem _ observation.run_id j entered in
        (
          same_run ∙ before.same_run,
          assert_hash_lem host _ _ _ hashed,
          (event_id, evidence_refs_lem observation.evidence event_id _ _ bound),
        )
