-- ===== src/Proof/Resolver.antt =====
-- packages/proof/src/evidence-resolver.ts. The two nested loops are the same for receipts and for
-- observations, so they are one function over the evidence of a source.
pub mod Members
use amca_core.Common.{Bool, ◌&&◌, Option, none, some, List, [], ◌∷◌, ◌++◌, filter, find}
use amca_core.Common.Equality.{◌==◌, string_has_eq}
use amca_core.Protocol.Evidence.{
  EvidenceKind, EvidenceRef, ExternalStateObservation, evidence_kind_has_eq,
}
use amca_core.Protocol.Effects.{EffectReceipt}

unfoldable pub filter_evidence_refs_by_kind : List EvidenceRef → EvidenceKind → List EvidenceRef
filter_evidence_refs_by_kind evidence_refs kind =
    filter (λ evidence_ref. evidence_ref.kind == kind) evidence_refs

unfoldable pub evidence_refs_match : EvidenceRef → EvidenceRef → Bool
evidence_refs_match claim_ref source_ref =
    claim_ref.evidence_id == source_ref.evidence_id
    && (claim_ref.kind == source_ref.kind
        && (claim_ref.source_event_id == source_ref.source_event_id
            && claim_ref.hash == source_ref.hash))

pub record Resolved (S : Type 0) : Type 0 where
  pub source : S
  pub claim_evidence_ref : EvidenceRef
  pub source_evidence_ref : EvidenceRef

module _ {S : Type 0} (evidence : S → List EvidenceRef) where
  -- `if (receiptEvidenceRef !== undefined) resolved.push(…)`
  abbrev pub push_found :
      S → EvidenceRef → Option EvidenceRef → List (Resolved S) → List (Resolved S)
  push_found source claim_ref none rest = rest
  push_found source claim_ref (some found) rest =
      record { source = source; claim_evidence_ref = claim_ref; source_evidence_ref = found } ∷ rest

  -- The inner loop.
  unfoldable pub resolve_ref : EvidenceRef → List S → List (Resolved S)
  resolve_ref claim_ref [] = []
  resolve_ref claim_ref (source ∷ sources) =
      push_found source claim_ref
        (find (λ evidence_ref. evidence_refs_match claim_ref evidence_ref) (evidence source))
        (resolve_ref claim_ref sources)

  -- The outer loop.
  unfoldable pub resolve : List EvidenceRef → List S → List (Resolved S)
  resolve [] sources = []
  resolve (claim_ref ∷ claim_refs) sources =
      resolve_ref claim_ref sources ++ resolve claim_refs sources

unfoldable pub resolve_effect_receipts :
    List EvidenceRef → List EffectReceipt → List (Resolved EffectReceipt)
resolve_effect_receipts = resolve (λ receipt. receipt.evidence)

unfoldable pub resolve_external_state_observations :
    List EvidenceRef → List ExternalStateObservation → List (Resolved ExternalStateObservation)
resolve_external_state_observations = resolve (λ observation. observation.evidence)
