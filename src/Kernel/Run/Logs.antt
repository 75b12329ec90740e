-- ===== src/Kernel/Run/Logs.antt =====
-- packages/kernel/src/run-kernel.ts: the log of a kernel, and its methods that read.
use amca_core.Common.{ℕ, String, none, some, ◌≡◌, refl}
use amca_core.Common.Outcome.{ok}
use amca_core.Protocol.Host.{Host}
use amca_core.Kernel.InMemoryLedger.{create}
use amca_core.Kernel.InMemoryLedger.Replay.{IsLog, created, appended, log_replays}
use amca_core.Kernel.Run.{RunKernel}
use amca_core.Kernel.Run.Grown.{Grown}
use amca_core.Kernel.Run.Session.{run_events, run_replay}
use amca_core.Kernel.Run.Steps.{IsRun}
use amca_core.Kernel.Run.Runs.{run-Grown}

module _ (host : Host) where
  grown-IsLog : (k : RunKernel) → Grown host k → IsLog host k.ledger
  grown-IsLog _ (Grown.made run_id ledger h) = created run_id none ledger h
  grown-IsLog _ (Grown.logged k input g) = appended input k.ledger (grown-IsLog k g)
  grown-IsLog _ (Grown.ticked k g) = grown-IsLog k g
  grown-IsLog _ (Grown.started k id g) = grown-IsLog k g
  grown-IsLog _ (Grown.tool_proposed k x g h) = grown-IsLog k g
  grown-IsLog _ (Grown.mutation_proposed k x g h) = grown-IsLog k g
  grown-IsLog _ (Grown.candidate_proposed k x g h) = grown-IsLog k g
  grown-IsLog _ (Grown.effect_requested k x g h) = grown-IsLog k g
  grown-IsLog _ (Grown.preflight_requested k x g h) = grown-IsLog k g
  grown-IsLog _ (Grown.preflight_decided k x g h) = grown-IsLog k g
  grown-IsLog _ (Grown.write_quarantined k x g h) = grown-IsLog k g
  grown-IsLog _ (Grown.approval_requested k x g h) = grown-IsLog k g
  grown-IsLog _ (Grown.approval_granted k x g h) = grown-IsLog k g
  grown-IsLog _ (Grown.approval_denied k x g h) = grown-IsLog k g
  grown-IsLog _ (Grown.approval_expired k x g h) = grown-IsLog k g
  grown-IsLog _ (Grown.receipt_recorded k x id g h) = grown-IsLog k g
  grown-IsLog _ (Grown.state_observed k x id g h) = grown-IsLog k g
  grown-IsLog _ (Grown.mutation_committed k x at_ hash g h a) = grown-IsLog k g

  module _ (clock : ℕ → String) (k : RunKernel) (run : IsRun host clock k) where
    pub run-IsLog : IsLog host k.ledger
    run-IsLog = grown-IsLog k (run-Grown host clock k run)

    -- After any calls, those that throw included, a kernel's log reads and replays as the events it keeps,
    -- without an error, and a log that is made from these events with its run id is that log.
    pub run_log_replays :
        (run_events host k ≡ ok k.ledger.events)
        × (run_replay host k ≡ ok k.ledger.events)
        × (create host k.ledger.run_id (some k.ledger.events) ≡ ok k.ledger)
    unfolding run_events run_replay
    run_log_replays =
        let (read, replayed, made) = log_replays host k.ledger run-IsLog in
        (rw read refl, rw replayed refl, made)
