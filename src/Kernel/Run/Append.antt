-- ===== src/Kernel/Run/Append.antt =====
-- packages/kernel/src/run-kernel.ts: appendEvent, and the checks of its options.
use amca_core.Common.{
  ℕ, ◌+◌, String, not, Option, none, some, any, is_blank, if◌then◌else◌, ◌+s◌, decimal,
  sanitize_id_part, leb,
}
use amca_core.Common.Equality.{◌==◌, string_has_eq}
use amca_core.Common.Outcome.{Result, ok, err}
use amca_core.Common.Outcome as Outcome
use amca_core.Protocol.Json.{obj}
use amca_core.Protocol.Host.{Host}
use amca_core.Protocol.Payloads.{RunEventPayload, event_type}
use amca_core.Contracts.Canonical.{canonical_hash}
use amca_core.Contracts.Json.Payloads.{payload_fields}
use amca_core.Contracts.Schemas.Payloads.{run_event_schema}
use amca_core.Kernel.Events.{Event, RunEventAppendInput}
use amca_core.Kernel.InMemoryLedger.{append, events, last_sequence}
use amca_core.Kernel.Run.{
  RunKernelErrorCode, KernelError, RunKernel, Check, Action, ◌>>=◌, ◌>>◌, pure, gets, require,
  fail_if, parse, json_or_error, event_or_error,
}

-- `undefined`, null, or a text.
pub record KernelEventOptions : Type 0 where
  pub event_id : Option String
  pub occurred_at : Option String
  pub payload_hash : Option String
  pub causation_id : Option (Option String)
  pub correlation_id : Option (Option String)

abbrev pub no_options : KernelEventOptions
no_options = record {
  event_id = none;
  occurred_at = none;
  payload_hash = none;
  causation_id = none;
  correlation_id = none;
}

-- `value ?? otherwise`
abbrev pub or_else {ℓ} : {A : Type ℓ} → Option A → A → A
or_else none otherwise = otherwise
or_else (some a) otherwise = a

-- `value ?? null`
abbrev pub or_null : Option (Option String) → Option String
or_null none = none
or_null (some value) = value

-- `text.padStart(4, "0")` of a number's text
abbrev pad_four : ℕ → String
pad_four n =
    if leb n 9
    then "000" +s decimal n
    else if leb n 99
    then "00" +s decimal n
    else if leb n 999
    then "0" +s decimal n
    else decimal n

unfoldable pub next_event_id : RunKernel → String → String
next_event_id k type =
    "evt_"
    +s sanitize_id_part k.run_id
    +s "_"
    +s pad_four (last_sequence k.ledger + 1)
    +s "_"
    +s sanitize_id_part type

unfoldable pub with_default_causation : RunKernel → KernelEventOptions → KernelEventOptions
with_default_causation k options = record options {
  causation_id = some (or_else options.causation_id k.started_event_id);
}

unfoldable pub assert_started : RunKernel → Check (Unit {0})
assert_started k = elim k.started_event_id [
  | none ↦ err (KernelError.kernel_error RunKernelErrorCode.run_not_started)
  | some id ↦ ok tt
]

unfoldable pub assert_input_run_id : String → RunKernel → Check (Unit {0})
assert_input_run_id input_run_id k =
    fail_if (not (input_run_id == k.run_id)) RunKernelErrorCode.run_id_mismatch

abbrev assert_correlation : Option String → Check (Unit {0})
assert_correlation none = ok tt
assert_correlation (some id) = fail_if (is_blank id) RunKernelErrorCode.invalid_correlation_id

module _ (host : Host) where
  abbrev assert_causation : Option String → RunKernel → Check (Unit {0})
  assert_causation none k = ok tt
  assert_causation (some id) k =
      Outcome.◌>>◌ (fail_if (is_blank id) RunKernelErrorCode.invalid_causation_id) (
        Outcome.◌>>=◌ (event_or_error (events host k.ledger)) (λ log.
          fail_if (not (any (λ event. event.event_id == id) log))
            RunKernelErrorCode.invalid_causation_id))

  unfoldable pub assert_event_references : KernelEventOptions → RunKernel → Check (Unit {0})
  assert_event_references options k =
      Outcome.◌>>◌ (assert_correlation (or_null options.correlation_id))
        (assert_causation (or_null options.causation_id) k)

  unfoldable pub assert_event_payload_hash : RunEventPayload → Option String → Check (Unit {0})
  assert_event_payload_hash payload none = ok tt
  assert_event_payload_hash payload (some expected_payload_hash) =
      Outcome.◌>>=◌ (json_or_error (canonical_hash host (obj (payload_fields payload)))) (λ actual.
        fail_if (not (expected_payload_hash == actual)) RunKernelErrorCode.payload_hash_mismatch)

  -- `this.ledger.append(input)`
  abbrev pub log_event : RunEventAppendInput → Action Event
  log_event input k =
      let (r, ledger) = append host input k.ledger in
      (event_or_error r, record k { ledger = ledger })

  module _ (clock : ℕ → String) where
    -- `occurredAt ?? this.#clock()`
    abbrev pub time_or_now : Option String → Action String
    time_or_now none k = (ok (clock k.ticks), record k { ticks = k.ticks + 1 })
    time_or_now (some time) k = (ok time, k)

    unfoldable pub append_event : RunEventPayload → KernelEventOptions → Action Event
    append_event payload options = do
      require (assert_event_references options)
      require (λ k. assert_event_payload_hash payload options.payload_hash)
      event_id ← gets (λ k. or_else options.event_id (next_event_id k (event_type payload)))
      run_id ← gets (λ k. k.run_id)
      occurred_at ← time_or_now options.occurred_at
      event ← log_event (record {
        event_id = event_id;
        run_id = run_id;
        sequence = none;
        type = event_type payload;
        payload = obj (payload_fields payload);
        payload_hash = options.payload_hash;
        causation_id = or_null options.causation_id;
        correlation_id = or_null options.correlation_id;
        occurred_at = occurred_at;
      })
      require (λ k. parse (run_event_schema host event payload))
      pure event

    -- What the methods that record an input share: guards on the state, the event, and the write.
    unfoldable pub record_event :
        (RunKernel → Check (Unit {0}))
        → RunEventPayload
        → KernelEventOptions
        → (RunKernel → RunKernel)
        → Action Event
    record_event guard payload options push = do
      require guard
      options_now ← gets (λ k. with_default_causation k options)
      event ← append_event payload options_now
      λ k. (ok event, push k)
