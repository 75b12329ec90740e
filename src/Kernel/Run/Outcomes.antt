-- ===== src/Kernel/Run/Outcomes.antt =====
-- packages/kernel/src/run-kernel.ts: how an append and a recording end.
use amca_core.Common.{
  ℕ, ◌+◌, String, Bool, true, false, none, some, Option, ◌≡◌, refl, ap, ◌⊎◌, inl, inr,
}
use amca_core.Common.Outcome.{ok, err, Result-cases}
use amca_core.Protocol.Host.{Host}
use amca_core.Protocol.Payloads.{RunEventPayload}
use amca_core.Contracts.Schemas.Payloads.{run_event_schema}
use amca_core.Kernel.Events.{Event, RunEventAppendInput}
use amca_core.Kernel.InMemoryLedger.{InMemoryLedger, push}
use amca_core.Kernel.InMemoryLedger.Integrity.{IsIntact, log_append-IsIntact}
use amca_core.Kernel.Run.{
  RunKernel, KernelError, contract_error, Check, Action, after, ◌>>=◌, ◌>>◌, pure, require, parse,
}
use amca_core.Kernel.Run.Append.{
  KernelEventOptions, log_event, time_or_now, append_event, record_event, assert_event_references,
  assert_event_payload_hash,
}
use amca_core.Kernel.Run.Trail.{Trail, with_log, append_event-Trail}

-- The call returned an event, its checks passed, and the input is pushed; or it threw. In both cases the log
-- and the clock may have moved.
abbrev pub Recorded :
    Check (Unit {0}) → (RunKernel → RunKernel) → RunKernel → Check Event × RunKernel → Type 0
Recorded guard push_input k r =
    ((event : Event) × (ledger : InMemoryLedger) × (ticks : ℕ) × (r.0 ≡ ok event)
      × (guard ≡ ok tt)
      × (r.1 ≡ push_input (with_log k ledger ticks)))
    ⊎ ((e : KernelError) × (ledger : InMemoryLedger) × (ticks : ℕ) × (r.0 ≡ err e)
        × (r.1 ≡ with_log k ledger ticks))

module _ (host : Host) where
  -- The call returned the event that the log now ends with; or threw and left the log; or threw since the
  -- schema refused the event that the log now ends with.
  abbrev pub Appended : RunEventPayload → InMemoryLedger → Check Event × RunKernel → Type 0
  Appended payload ledger r =
      ((event : Event) × (r.0 ≡ ok event)
        × (r.1.ledger ≡ push ledger event)
        × (run_event_schema host event payload ≡ true))
      ⊎ ((e : KernelError) × (r.0 ≡ err e) × (r.1.ledger ≡ ledger))
      ⊎ ((event : Event) × (r.0 ≡ err contract_error)
          × (r.1.ledger ≡ push ledger event)
          × (run_event_schema host event payload ≡ false))

  abbrev parse_after : RunEventPayload → Event → Action Event
  parse_after payload event =
      require (λ k. parse (run_event_schema host event payload)) >> pure event

  parsed :
      (payload : RunEventPayload) (event : Event) (ledger : InMemoryLedger) (k : RunKernel)
      (b : Bool)
      → run_event_schema host event payload ≡ b
      → k.ledger ≡ push ledger event
      → Appended payload ledger (parse_after payload event k)
  unfolding after
  parsed payload event ledger k true h same = rw h (inl (event, refl, same, h))
  parsed payload event ledger k false h same = rw h (inr (inr (event, refl, same, h)))

  logged :
      (payload : RunEventPayload) (input : RunEventAppendInput) (k : RunKernel)
      → IsIntact host k.ledger
      → Appended payload k.ledger (after (parse_after payload) (log_event host input k))
  unfolding after
  logged payload input k intact = elim (log_append-IsIntact host input k.ledger intact).1 [
    | inl (event, returned, grown) ↦ rw returned (parsed payload event k.ledger _ _ refl grown)
    | inr (code, thrown, kept) ↦ rw thrown (inr (inl (_, refl, kept)))
  ]

  module _ (clock : ℕ → String) where
    timed :
        (payload : RunEventPayload) (time : Option String) (input : String → RunEventAppendInput)
        (k : RunKernel)
        → IsIntact host k.ledger
        → Appended payload k.ledger (
            after
              (λ at_. log_event host (input at_) >>= parse_after payload)
              (time_or_now host clock time k))
    unfolding after
    timed payload none input k intact =
        logged payload (input (clock k.ticks)) (record k { ticks = k.ticks + 1 }) intact
    timed payload (some time) input k intact = logged payload (input time) k intact

    -- An append to an intact log returns the event, which its log then ends with and the schema accepts; or
    -- throws and leaves the log as it was; or throws a contract error since the schema refuses the event,
    -- which the log then ends with all the same.
    pub append_event_outcomes :
        (payload : RunEventPayload) (options : KernelEventOptions) (k : RunKernel)
        → IsIntact host k.ledger
        → Appended payload k.ledger (append_event host clock payload options k)
    unfolding append_event after
    append_event_outcomes payload options k intact =
        elim (Result-cases (assert_event_references host options k)) [
          | inr (e, refused) ↦ rw refused (inr (inl (e, refl, refl)))
          | inl (a, referenced) ↦
              elim (Result-cases (assert_event_payload_hash host payload options.payload_hash)) [
                | inr (e, refused) ↦ rw (referenced, refused) (inr (inl (e, refl, refl)))
                | inl (b, hashed) ↦
                    rw (referenced, hashed) (timed payload options.occurred_at _ k intact)
              ]
        ]

    -- A method that records an input returns an event after its checks passed, and pushes the input onto a state
    -- where only the log and the clock moved; or throws, and nothing but the log and the clock moved.
    pub record_event_outcomes :
        (guard : RunKernel → Check (Unit {0})) (payload : RunEventPayload)
        (options : KernelEventOptions) (push_input : RunKernel → RunKernel) (k : RunKernel)
        → Recorded
            (guard k)
            push_input
            k
            (record_event host clock guard payload options push_input k)
    unfolding record_event after
    record_event_outcomes guard payload options push_input k = elim (Result-cases (guard k)) [
      | inr (e, refused) ↦ rw refused (inr (e, k.ledger, k.ticks, refl, refl))
      | inl (a, accepted) ↦
          rw accepted
            (go (append_event host clock payload _ k) (append_event-Trail host clock payload _ k))
    ]
      where
        go :
            (r : Check Event × RunKernel)
            → Trail host k r.1
            → Recorded (ok tt) push_input k (after (λ event l. (ok event, push_input l)) r)
        go (ok event, l) trail =
            let (ledger, ticks, same) = trail.same in
            inl (event, ledger, ticks, refl, refl, ap push_input same)
        go (err e, l) trail =
            let (ledger, ticks, same) = trail.same in inr (e, ledger, ticks, refl, same)
