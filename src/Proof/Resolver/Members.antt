-- ===== src/Proof/Resolver/Members.antt =====
-- packages/proof/src/evidence-resolver.ts: where a resolved pair comes from.
use mathlib.Core.List.{Memᴰ}
use mathlib.Core.List.Memᴰ.{append_cases}
use amca_core.Common.{
  true, Option, none, some, ◌≡◌, refl, inl, inr, List, [], ◌∷◌, find, Bool-cases, some_inj,
}
use amca_core.Protocol.Evidence.{EvidenceRef}
use amca_core.Proof.Resolver.{Resolved, evidence_refs_match, push_found, resolve_ref, resolve}

module _ {S : Type 0} (evidence : S → List EvidenceRef) where
  find_member :
      (claim_ref : EvidenceRef) (refs : List EvidenceRef) {found : EvidenceRef}
      → find (λ r. evidence_refs_match claim_ref r) refs ≡ some found
      → Memᴰ found refs × (evidence_refs_match claim_ref found ≡ true)
  find_member claim_ref [] h = cc
  find_member claim_ref (r ∷ refs) {found} h = elim (Bool-cases (evidence_refs_match claim_ref r)) [
    | inl hit ↦ let e : r ≡ found = some_inj (rw hit at h) in (Memᴰ.head (rw e), rw e at hit)
    | inr miss ↦ let (m, q) = find_member claim_ref refs (rw miss at h) in (Memᴰ.tail m, q)
  ]

  -- The claim's reference, the source, and a reference of the source that matches it.
  pub record IsResolved (refs : List EvidenceRef) (sources : List S) (r : Resolved S) : Type 0 where
    pub referenced : Memᴰ r.claim_evidence_ref refs
    pub from_source : Memᴰ r.source sources
    pub carried : Memᴰ r.source_evidence_ref (evidence r.source)
    pub matching : evidence_refs_match r.claim_evidence_ref r.source_evidence_ref ≡ true

  ref_member :
      (claim_ref : EvidenceRef) (sources : List S) {r : Resolved S}
      → Memᴰ r (resolve_ref evidence claim_ref sources)
      → IsResolved (claim_ref ∷ []) sources r
  unfolding resolve_ref
  ref_member claim_ref [] m = elim m [ ]
  ref_member claim_ref (source ∷ sources) {r} m =
      go (λ n. ref_member claim_ref sources {r = r} n)
        (find (λ e. evidence_refs_match claim_ref e) (evidence source)) refl m
    where
      step :
          IsResolved (claim_ref ∷ []) sources r → IsResolved (claim_ref ∷ []) (source ∷ sources) r
      step i = record {
        referenced = i.referenced;
        from_source = Memᴰ.tail i.from_source;
        carried = i.carried;
        matching = i.matching;
      }

      go :
          (ih : Memᴰ r (resolve_ref evidence claim_ref sources)
            → IsResolved (claim_ref ∷ []) sources r)
          (o : Option EvidenceRef)
          → find (λ e. evidence_refs_match claim_ref e) (evidence source) ≡ o
          → Memᴰ r (push_found evidence source claim_ref o (resolve_ref evidence claim_ref sources))
          → IsResolved (claim_ref ∷ []) (source ∷ sources) r
      go ih none e n = step (ih n)
      go ih (some found) e (Memᴰ.tail n) = step (ih n)
      go ih (some found) e (Memᴰ.head h) =
          let (m, q) = find_member claim_ref (evidence source) e in
          rw h (record {
            referenced = Memᴰ.head refl;
            from_source = Memᴰ.head refl;
            carried = m;
            matching = q;
          })

  pub resolve_member :
      (refs : List EvidenceRef) (sources : List S) {r : Resolved S}
      → Memᴰ r (resolve evidence refs sources)
      → IsResolved refs sources r
  unfolding resolve
  resolve_member [] sources m = elim m [ ]
  resolve_member (claim_ref ∷ refs) sources {r} m =
      elim (append_cases (resolve_ref evidence claim_ref sources) m) [
        | inl here ↦
            let i = ref_member claim_ref sources here in
            record {
              referenced = elim i.referenced [
                | Memᴰ.head e ↦ Memᴰ.head e
                | Memᴰ.tail n ↦ elim n [ ]
              ];
              from_source = i.from_source;
              carried = i.carried;
              matching = i.matching;
            }
        | inr there ↦
            let i = resolve_member refs sources there in
            record {
              referenced = Memᴰ.tail i.referenced;
              from_source = i.from_source;
              carried = i.carried;
              matching = i.matching;
            }
      ]
