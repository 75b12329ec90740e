-- ===== src/Kernel/Run/Revisions.antt =====
-- packages/kernel/src/run-kernel.ts: the revisions of the state, and the mutations that were committed.
use mathlib.Core.Path.{subst}
use mathlib.Core.List.{append_assoc, append-nil}
use amca_core.Common.{
  ℕ, suc, ◌+◌, String, ◌≡◌, refl, sym, ap, ◌∙◌, List, [], ◌∷◌, ◌++◌, arith, if◌then◌else◌, inl, inr,
  Bool-cases,
}
use amca_core.Common.Equality.{◌==◌, string_has_eq}
use amca_core.Protocol.Host.{Host}
use amca_core.Protocol.Mutations.{MutationCommitted}
use amca_core.Kernel.Run.{RunKernel}
use amca_core.Kernel.Run.Commit.{state_revision, committed_mutation, push_mutation}
use amca_core.Kernel.Run.Grown.{Grown}
use amca_core.Kernel.Run.Steps.{IsRun}
use amca_core.Kernel.Run.Runs.{run-Grown}

-- How many mutations changed a part of the state.
abbrev pub count : String → List MutationCommitted → ℕ
count ref [] = 0
count ref (m ∷ ms) = let rest = count ref ms in if ref == m.state_ref then suc rest else rest

-- Each mutation goes from the number of the mutations of its part before it, `seen` among them, to the next.
abbrev pub Numbered : List MutationCommitted → List MutationCommitted → Type 0
Numbered seen [] = Unit
Numbered seen (m ∷ ms) =
    (m.previous_revision ≡ count m.state_ref seen)
    × (m.new_revision ≡ count m.state_ref seen + 1)
    × Numbered (seen ++ m ∷ []) ms

count_snoc :
    (ref : String) (ms : List MutationCommitted) (m : MutationCommitted)
    → count ref (ms ++ m ∷ []) ≡ (if ref == m.state_ref then count ref ms + 1 else count ref ms)
count_snoc ref [] m = ground arith
count_snoc ref (n ∷ ms) m = ground (arith, count_snoc ref ms m)

Numbered-snoc :
    (seen ms : List MutationCommitted) (m : MutationCommitted)
    → Numbered seen ms
    → m.previous_revision ≡ count m.state_ref (seen ++ ms)
    → m.new_revision ≡ count m.state_ref (seen ++ ms) + 1
    → Numbered seen (ms ++ m ∷ [])
Numbered-snoc seen [] m h p q =
    let none_after = append-nil seen in
    (
      subst (λ s. m.previous_revision ≡ count m.state_ref s) none_after p,
      subst (λ s. m.new_revision ≡ count m.state_ref s + 1) none_after q,
      tt,
    )
Numbered-snoc seen (n ∷ ms) m (a, b, h) p q =
    (a, b, Numbered-snoc (seen ++ n ∷ []) ms m h (rw (append_assoc) p) (rw (append_assoc) q))

count_pushed :
    (k : RunKernel) (m : MutationCommitted)
    → ((ref : String) → state_revision k ref ≡ count ref k.mutations)
    → m.new_revision ≡ state_revision k m.state_ref + 1
    → (ref : String) → state_revision (push_mutation m k) ref ≡ count ref (k.mutations ++ m ∷ [])
count_pushed k m counted next ref = elim (Bool-cases (ref == m.state_ref)) [
  | inl hit ↦
      let same : ref ≡ m.state_ref = (string_has_eq.beq_iff _ _).0 hit in
      rw (count_snoc ref k.mutations m, hit)
        (next ∙ ap (λ n. n + 1) (counted m.state_ref ∙ ap (λ r. count r k.mutations) (sym same)))
  | inr miss ↦ rw (count_snoc ref k.mutations m, miss) (counted ref)
]

module _ (host : Host) where
  counted :
      (k : RunKernel) → Grown host k → (ref : String) → state_revision k ref ≡ count ref k.mutations
  unfolding committed_mutation
  counted _ (Grown.made run_id ledger h) ref = refl
  counted _ (Grown.logged k input g) ref = counted k g ref
  counted _ (Grown.ticked k g) ref = counted k g ref
  counted _ (Grown.started k id g) ref = counted k g ref
  counted _ (Grown.tool_proposed k x g h) ref = counted k g ref
  counted _ (Grown.mutation_proposed k x g h) ref = counted k g ref
  counted _ (Grown.candidate_proposed k x g h) ref = counted k g ref
  counted _ (Grown.effect_requested k x g h) ref = counted k g ref
  counted _ (Grown.preflight_requested k x g h) ref = counted k g ref
  counted _ (Grown.preflight_decided k x g h) ref = counted k g ref
  counted _ (Grown.write_quarantined k x g h) ref = counted k g ref
  counted _ (Grown.approval_requested k x g h) ref = counted k g ref
  counted _ (Grown.approval_granted k x g h) ref = counted k g ref
  counted _ (Grown.approval_denied k x g h) ref = counted k g ref
  counted _ (Grown.approval_expired k x g h) ref = counted k g ref
  counted _ (Grown.receipt_recorded k x id g h) ref = counted k g ref
  counted _ (Grown.state_observed k x id g h) ref = counted k g ref
  counted _ (Grown.mutation_committed k x time hash g h a) ref =
      let mutation = committed_mutation x (state_revision k x.state_ref) time hash in
      count_pushed k mutation (counted k g) refl ref

  numbered : (k : RunKernel) → Grown host k → Numbered [] k.mutations
  unfolding committed_mutation
  numbered _ (Grown.made run_id ledger h) = tt
  numbered _ (Grown.logged k input g) = numbered k g
  numbered _ (Grown.ticked k g) = numbered k g
  numbered _ (Grown.started k id g) = numbered k g
  numbered _ (Grown.tool_proposed k x g h) = numbered k g
  numbered _ (Grown.mutation_proposed k x g h) = numbered k g
  numbered _ (Grown.candidate_proposed k x g h) = numbered k g
  numbered _ (Grown.effect_requested k x g h) = numbered k g
  numbered _ (Grown.preflight_requested k x g h) = numbered k g
  numbered _ (Grown.preflight_decided k x g h) = numbered k g
  numbered _ (Grown.write_quarantined k x g h) = numbered k g
  numbered _ (Grown.approval_requested k x g h) = numbered k g
  numbered _ (Grown.approval_granted k x g h) = numbered k g
  numbered _ (Grown.approval_denied k x g h) = numbered k g
  numbered _ (Grown.approval_expired k x g h) = numbered k g
  numbered _ (Grown.receipt_recorded k x id g h) = numbered k g
  numbered _ (Grown.state_observed k x id g h) = numbered k g
  numbered _ (Grown.mutation_committed k x time hash g h a) =
      let mutation = committed_mutation x (state_revision k x.state_ref) time hash in
      Numbered-snoc [] k.mutations mutation (numbered k g) (counted k g x.state_ref)
        (ap (λ n. n + 1) (counted k g x.state_ref))

  module _ (clock : ℕ → String) (k : RunKernel) (run : IsRun host clock k) where
    -- After any calls, the revision of each part of the state is the number of mutations of it that were
    -- committed, and each of these went from the number before it to the next: none was lost, and no two
    -- started from the same revision.
    pub revisions_count :
        ((ref : String) → state_revision k ref ≡ count ref k.mutations) × Numbered [] k.mutations
    revisions_count = let grown = run-Grown host clock k run in (counted k grown, numbered k grown)
