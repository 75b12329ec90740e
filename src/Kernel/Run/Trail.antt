-- ===== src/Kernel/Run/Trail.antt =====
-- packages/kernel/src/run-kernel.ts: appendEvent changes the log and the clock only.
use amca_core.Common.{ℕ, ◌+◌, String, Option, none, some, ◌≡◌, refl, inl, inr}
use amca_core.Common.Outcome.{ok, err, Result-cases}
use amca_core.Protocol.Host.{Host}
use amca_core.Protocol.Payloads.{RunEventPayload}
use amca_core.Kernel.Events.{Event, RunEventAppendInput}
use amca_core.Kernel.InMemoryLedger.{InMemoryLedger, append}
use amca_core.Kernel.Run.{RunKernel, Check, after}
use amca_core.Kernel.Run.Append.{
  KernelEventOptions, time_or_now, append_event, record_event, log_event,
}
use amca_core.Kernel.Run.Keeps.{after-Keeps}
use amca_core.Kernel.Run.Grown.{Grown}

abbrev pub with_log : RunKernel → InMemoryLedger → ℕ → RunKernel
with_log k ledger ticks = record k { ledger = ledger; ticks = ticks }

pub record Trail (host : Host) (k l : RunKernel) : Type 0 where
  pub grows : Grown host k → Grown host l
  pub same : (ledger : InMemoryLedger) × (ticks : ℕ) × (l ≡ with_log k ledger ticks)

module _ (host : Host) where
  pub stay : (k : RunKernel) → Trail host k k
  stay k = record { grows = λ g. g; same = (k.ledger, k.ticks, refl) }

  pub chain : (k l m : RunKernel) → Trail host k l → Trail host l m → Trail host k m
  chain k l m a b = record {
    grows = λ g. b.grows (a.grows g);
    same =
        let (ledger, ticks, h) = a.same in
        let (ledger', ticks', h') = b.same in (ledger', ticks', rw (h', h) refl);
  }

  log_event-Trail :
      (input : RunEventAppendInput) (k : RunKernel) → Trail host k (log_event host input k).1
  log_event-Trail input k = record {
    grows = λ g. Grown.logged k input g;
    same = ((append host input k.ledger).1, k.ticks, refl);
  }

  module _ (clock : ℕ → String) where
    pub time-Trail :
        (time : Option String) (k : RunKernel) → Trail host k (time_or_now host clock time k).1
    time-Trail none k = record {
      grows = λ g. Grown.ticked k g;
      same = (k.ledger, k.ticks + 1, refl);
    }
    time-Trail (some time) k = stay k

    pub append_event-Trail :
        (payload : RunEventPayload) (options : KernelEventOptions) (k : RunKernel)
        → Trail host k (append_event host clock payload options k).1
    unfolding append_event
    append_event-Trail payload options k = after-Keeps (Trail host k) _ _ (stay k) λ _ l h.
        after-Keeps (Trail host k) _ _ h λ _ l h. after-Keeps (Trail host k) _ _ h λ event_id l h.
          after-Keeps (Trail host k) _ _ h λ run_id l h.
            after-Keeps (Trail host k) _ _ (chain k l _ h (time-Trail options.occurred_at l))
              λ occurred_at l h.
                after-Keeps (Trail host k) _ _ (chain k l _ h (log_event-Trail _ l))
                  λ event l h. after-Keeps (Trail host k) _ _ h λ _ l h. h

    -- A method that records an input, at a state whose checks accept it or not.
    pub record_event-Grown :
        (guard : RunKernel → Check (Unit {0})) (payload : RunEventPayload)
        (options : KernelEventOptions) (push : RunKernel → RunKernel)
        → ((k : RunKernel) (ledger : InMemoryLedger) (ticks : ℕ)
            → guard (with_log k ledger ticks) ≡ guard k)
        → ((k : RunKernel) → Grown host k → guard k ≡ ok tt → Grown host (push k))
        → (k : RunKernel) → Grown host k
        → Grown host (record_event host clock guard payload options push k).1
    unfolding record_event after
    record_event-Grown guard payload options push stable pushed k grown =
        elim (Result-cases (guard k)) [
          | inl (a, accepted) ↦
              rw accepted
                (go (append_event host clock payload _ k) (append_event-Trail payload _ k) accepted)
          | inr (e, refused) ↦ rw refused grown
        ]
      where
        go :
            (r : Check Event × RunKernel)
            → Trail host k r.1
            → guard k ≡ ok tt
            → Grown host (after (λ event l. (ok event, push l)) r).1
        go (ok event, l) trail accepted =
            let (ledger, ticks, same) = trail.same in
            pushed l (trail.grows grown) (rw (same, stable k ledger ticks) accepted)
        go (err e, l) trail accepted = trail.grows grown
