-- ===== src/Kernel/Run/Traced.antt =====
-- packages/kernel/src/run-kernel.ts: the members of the lists of a kernel, write by write.
use mathlib.Core.List.{Memᴰ}
use mathlib.Core.List.Memᴰ as Mem
use amca_core.Common.{◌+◌, some, [], ◌∷◌, ◌++◌, refl}
use amca_core.Protocol.Host.{Host}
use amca_core.Protocol.Mutations.{tool_command, mutation_command, final_candidate}
use amca_core.Kernel.InMemoryLedger.{append}
use amca_core.Kernel.Run.{RunKernel}
use amca_core.Kernel.Run.Commit.{state_revision, committed_mutation, push_mutation}
use amca_core.Kernel.Run.Grown.{Grown}
use amca_core.Kernel.Run.Origins.{IsBefore, Commit, Origins, before, carry, snoc}

module _ (host : Host) where
  none_yet : {A : Type 0} (x : A) (R : Type 0) → Memᴰ x [] → R
  none_yet x R m = elim m [ ]

  -- Every member of a list passed the checks of its method at an earlier state of the kernel.
  pub origins : (k : RunKernel) → Grown host k → Origins host k k
  origins _ (Grown.made run_id ledger h) = (
    (λ x m. none_yet x _ m),
    (λ x m. none_yet x _ m),
    (λ x m. none_yet x _ m),
    (λ x m. none_yet x _ m),
    (λ x m. none_yet x _ m),
    (λ x m. none_yet x _ m),
    (λ x m. none_yet x _ m),
    (λ x m. none_yet x _ m),
    (λ x m. none_yet x _ m),
    (λ x m. none_yet x _ m),
    (λ x m. none_yet x _ m),
    (λ x m. none_yet x _ m),
  )
  origins _ (Grown.logged k input g) =
      let k' = record k { ledger = (append host input k.ledger).1 } in
      carry host k k' k
        (before k k' refl (λ x m. m) (λ x m. m) (λ x m. m) (λ x m. m) (λ x m. m) (λ x m. m))
        (origins k g)
  origins _ (Grown.ticked k g) =
      let k' = record k { ticks = k.ticks + 1 } in
      carry host k k' k
        (before k k' refl (λ x m. m) (λ x m. m) (λ x m. m) (λ x m. m) (λ x m. m) (λ x m. m))
        (origins k g)
  origins _ (Grown.started k event_id g) =
      let k' = record k { started_event_id = some event_id } in
      carry host k k' k
        (before k k' refl (λ x m. m) (λ x m. m) (λ x m. m) (λ x m. m) (λ x m. m) (λ x m. m))
        (origins k g)
  origins _ (Grown.tool_proposed k x g h) =
      let k' = record k { proposals = k.proposals ++ tool_command x ∷ [] } in
      let step : IsBefore k k' =
        before k k' refl (λ x m. m) (λ x m. m) (λ x m. m) (λ x m. m) (λ x m. m)
          (λ x m. Mem.append_left _ m) in
      let new = (origins k g).8 in
      let (a, b, c, d, e, f, p, q, _, s, t, u) = carry host k k' k step (origins k g) in
      (a, b, c, d, e, f, p, q, snoc host k.proposals (tool_command x) k k' step g h new, s, t, u)
  origins _ (Grown.mutation_proposed k x g h) =
      let k' = record k { proposals = k.proposals ++ mutation_command x ∷ [] } in
      let step : IsBefore k k' =
        before k k' refl (λ x m. m) (λ x m. m) (λ x m. m) (λ x m. m) (λ x m. m)
          (λ x m. Mem.append_left _ m) in
      let new = (origins k g).8 in
      let (a, b, c, d, e, f, p, q, _, s, t, u) = carry host k k' k step (origins k g) in
      (
        a,
        b,
        c,
        d,
        e,
        f,
        p,
        q,
        snoc host k.proposals (mutation_command x) k k' step g h new,
        s,
        t,
        u,
      )
  origins _ (Grown.candidate_proposed k x g h) =
      let k' = record k { proposals = k.proposals ++ final_candidate x ∷ [] } in
      let step : IsBefore k k' =
        before k k' refl (λ x m. m) (λ x m. m) (λ x m. m) (λ x m. m) (λ x m. m)
          (λ x m. Mem.append_left _ m) in
      let new = (origins k g).8 in
      let (a, b, c, d, e, f, p, q, _, s, t, u) = carry host k k' k step (origins k g) in
      (a, b, c, d, e, f, p, q, snoc host k.proposals (final_candidate x) k k' step g h new, s, t, u)
  origins _ (Grown.effect_requested k x g h) =
      let k' = record k { effect_requests = k.effect_requests ++ x ∷ [] } in
      let step : IsBefore k k' =
        before k k' refl (λ x m. Mem.append_left _ m) (λ x m. m) (λ x m. m) (λ x m. m) (λ x m. m)
          (λ x m. m) in
      let new = (origins k g).0 in
      let (_, b, c, d, e, f, p, q, r, s, t, u) = carry host k k' k step (origins k g) in
      (snoc host k.effect_requests x k k' step g h new, b, c, d, e, f, p, q, r, s, t, u)
  origins _ (Grown.preflight_requested k x g h) =
      let k' = record k { write_preflight_candidates = k.write_preflight_candidates ++ x ∷ [] } in
      let step : IsBefore k k' =
        before k k' refl (λ x m. m) (λ x m. Mem.append_left _ m) (λ x m. m) (λ x m. m) (λ x m. m)
          (λ x m. m) in
      let new = (origins k g).9 in
      let (a, b, c, d, e, f, p, q, r, _, t, u) = carry host k k' k step (origins k g) in
      (a, b, c, d, e, f, p, q, r, snoc host k.write_preflight_candidates x k k' step g h new, t, u)
  origins _ (Grown.preflight_decided k x g h) =
      let k' = record k { write_preflight_decisions = k.write_preflight_decisions ++ x ∷ [] } in
      let step : IsBefore k k' =
        before k k' refl (λ x m. m) (λ x m. m) (λ x m. Mem.append_left _ m) (λ x m. m) (λ x m. m)
          (λ x m. m) in
      let new = (origins k g).10 in
      let (a, b, c, d, e, f, p, q, r, s, _, u) = carry host k k' k step (origins k g) in
      (a, b, c, d, e, f, p, q, r, s, snoc host k.write_preflight_decisions x k k' step g h new, u)
  origins _ (Grown.write_quarantined k x g h) =
      let k' = record k { write_quarantine_states = k.write_quarantine_states ++ x ∷ [] } in
      let step : IsBefore k k' =
        before k k' refl (λ x m. m) (λ x m. m) (λ x m. m) (λ x m. m) (λ x m. m) (λ x m. m) in
      let new = (origins k g).11 in
      let (a, b, c, d, e, f, p, q, r, s, t, _) = carry host k k' k step (origins k g) in
      (a, b, c, d, e, f, p, q, r, s, t, snoc host k.write_quarantine_states x k k' step g h new)
  origins _ (Grown.approval_requested k x g h) =
      let k' = record k { approval_requests = k.approval_requests ++ x ∷ [] } in
      let step : IsBefore k k' =
        before k k' refl (λ x m. m) (λ x m. m) (λ x m. m) (λ x m. Mem.append_left _ m) (λ x m. m)
          (λ x m. m) in
      let new = (origins k g).4 in
      let (a, b, c, d, _, f, p, q, r, s, t, u) = carry host k k' k step (origins k g) in
      (a, b, c, d, snoc host k.approval_requests x k k' step g h new, f, p, q, r, s, t, u)
  origins _ (Grown.approval_granted k x g h) =
      let k' = record k { approval_grants = k.approval_grants ++ x ∷ [] } in
      let step : IsBefore k k' =
        before k k' refl (λ x m. m) (λ x m. m) (λ x m. m) (λ x m. m) (λ x m. Mem.append_left _ m)
          (λ x m. m) in
      let new = (origins k g).5 in
      let (a, b, c, d, e, _, p, q, r, s, t, u) = carry host k k' k step (origins k g) in
      (a, b, c, d, e, snoc host k.approval_grants x k k' step g h new, p, q, r, s, t, u)
  origins _ (Grown.approval_denied k x g h) =
      let k' = record k { approval_denials = k.approval_denials ++ x ∷ [] } in
      let step : IsBefore k k' =
        before k k' refl (λ x m. m) (λ x m. m) (λ x m. m) (λ x m. m) (λ x m. m) (λ x m. m) in
      let new = (origins k g).6 in
      let (a, b, c, d, e, f, _, q, r, s, t, u) = carry host k k' k step (origins k g) in
      (a, b, c, d, e, f, snoc host k.approval_denials x k k' step g h new, q, r, s, t, u)
  origins _ (Grown.approval_expired k x g h) =
      let k' = record k { approval_expiries = k.approval_expiries ++ x ∷ [] } in
      let step : IsBefore k k' =
        before k k' refl (λ x m. m) (λ x m. m) (λ x m. m) (λ x m. m) (λ x m. m) (λ x m. m) in
      let new = (origins k g).7 in
      let (a, b, c, d, e, f, p, _, r, s, t, u) = carry host k k' k step (origins k g) in
      (a, b, c, d, e, f, p, snoc host k.approval_expiries x k k' step g h new, r, s, t, u)
  origins _ (Grown.receipt_recorded k x id g h) =
      let k' = record k { effect_receipts = k.effect_receipts ++ x ∷ [] } in
      let step : IsBefore k k' =
        before k k' refl (λ x m. m) (λ x m. m) (λ x m. m) (λ x m. m) (λ x m. m) (λ x m. m) in
      let new = (origins k g).1 in
      let (a, _, c, d, e, f, p, q, r, s, t, u) = carry host k k' k step (origins k g) in
      (a, snoc host k.effect_receipts x k k' step g (id, h) new, c, d, e, f, p, q, r, s, t, u)
  origins _ (Grown.state_observed k x id g h) =
      let k' = record k { external_state_observations = k.external_state_observations ++ x ∷ [] } in
      let step : IsBefore k k' =
        before k k' refl (λ x m. m) (λ x m. m) (λ x m. m) (λ x m. m) (λ x m. m) (λ x m. m) in
      let new = (origins k g).2 in
      let (a, b, _, d, e, f, p, q, r, s, t, u) = carry host k k' k step (origins k g) in
      (
        a,
        b,
        snoc host k.external_state_observations x k k' step g (id, h) new,
        d,
        e,
        f,
        p,
        q,
        r,
        s,
        t,
        u,
      )
  origins _ (Grown.mutation_committed k x committed_at payload_hash g h accepted) =
      let k' =
        push_mutation
          (committed_mutation x (state_revision k x.state_ref) committed_at payload_hash) k in
      let step : IsBefore k k' =
        before k k' refl (λ x m. m) (λ x m. m) (λ x m. m) (λ x m. m) (λ x m. m) (λ x m. m) in
      let commit : Commit host k
          (committed_mutation x (state_revision k x.state_ref) committed_at payload_hash) =
        record {
          command = x;
          committed_at = committed_at;
          payload_hash = payload_hash;
          made = refl;
          allowed = h;
          accepted = accepted;
        } in
      let new = (origins k g).3 in
      let (a, b, c, _, e, f, p, q, r, s, t, u) = carry host k k' k step (origins k g) in
      (a, b, c, snoc host k.mutations _ k k' step g commit new, e, f, p, q, r, s, t, u)
