-- ===== src/Kernel/Run/Reads.antt =====
-- packages/kernel/src/run-kernel.ts: the methods that read the lists of a kernel.
use mathlib.Core.List.{Memᴰ}
use amca_core.Common.{ℕ, String, Bool, true, ◌≡◌, refl, List}
use amca_core.Common.Members.{all_from_members}
use amca_core.Common.Outcome.{ok, ◌>>◌}
use amca_core.Protocol.Host.{Host}
use amca_core.Protocol.Mutations.{Proposal, tool_command, mutation_command, final_candidate}
use amca_core.Contracts.Schemas.Evidence.{external_state_observation_schema}
use amca_core.Contracts.Schemas.Effects.{effect_request_schema, effect_receipt_schema}
use amca_core.Contracts.Schemas.Preflight.{
  write_preflight_candidate_schema, write_quarantine_state_schema, write_preflight_decision_schema,
}
use amca_core.Contracts.Schemas.Mutations.{mutation_committed_schema, proposal_schema}
use amca_core.Contracts.Schemas.Approvals.{
  approval_request_schema, approval_grant_schema, approval_denial_schema, approval_expiry_schema,
}
use amca_core.Kernel.Run.{RunKernel, Check}
use amca_core.Kernel.Run.Guards.{entry}
use amca_core.Kernel.Run.Record.{
  tool_command_guard, mutation_command_guard, effect_request_guard, candidate_guard, decision_guard,
  quarantine_guard, approval_request_guard, grant_guard, denial_guard, expiry_guard, receipt_guard,
  observation_guard,
}
use amca_core.Kernel.Run.Submit.{final_candidate_guard}
use amca_core.Kernel.Run.Session.{
  reparsed, effect_requests, effect_receipts, external_state_observations, mutations,
  approval_requests, approval_grants, approval_denials, approval_expiries, proposals,
  write_preflight_candidates, write_preflight_decisions, write_quarantine_states,
}
use amca_core.Kernel.Run.Steps.{IsRun}
use amca_core.Kernel.Run.Runs.{run-Grown}
use amca_core.Kernel.Run.Origins.{From, proposal_guard}
use amca_core.Kernel.Run.Traced.{origins}
use amca_core.Kernel.Run.Passed.{then-eq-ok, entry_lem}

reparsed_lem :
    {A : Type 0} (schema : A → Bool) (xs : List A)
    → ((x : A) → Memᴰ x xs → schema x ≡ true)
    → reparsed schema xs ≡ ok xs
reparsed_lem schema xs h = rw (all_from_members schema xs h) refl

-- A check that begins with the entry of a method.
entered :
    (schema : Bool) (run_id : String) (k : RunKernel) (rest : Check (Unit {0}))
    → (entry schema run_id k >> rest) ≡ ok tt
    → schema ≡ true
entered schema run_id k rest h =
    (entry_lem schema run_id k (then-eq-ok (entry schema run_id k) rest h).0).0

module _ (host : Host) where
  proposal_accepted :
      (x : Proposal) (j : RunKernel)
      → proposal_guard host x j ≡ ok tt
      → proposal_schema host x ≡ true
  unfolding tool_command_guard mutation_command_guard final_candidate_guard proposal_schema
  proposal_accepted (tool_command x) j h = (entry_lem _ _ j h).0
  proposal_accepted (mutation_command x) j h = entered _ _ j _ h
  proposal_accepted (final_candidate x) j h = (entry_lem _ _ j h).0

  -- Each method returns its list.
  abbrev pub ReadsReturn : RunKernel → Type 0
  ReadsReturn k =
      (effect_requests host k ≡ ok k.effect_requests)
      × (effect_receipts host k ≡ ok k.effect_receipts)
      × (external_state_observations host k ≡ ok k.external_state_observations)
      × (mutations host k ≡ ok k.mutations)
      × (approval_requests host k ≡ ok k.approval_requests)
      × (approval_grants host k ≡ ok k.approval_grants)
      × (approval_denials host k ≡ ok k.approval_denials)
      × (approval_expiries host k ≡ ok k.approval_expiries)
      × (proposals host k ≡ ok k.proposals)
      × (write_preflight_candidates host k ≡ ok k.write_preflight_candidates)
      × (write_preflight_decisions host k ≡ ok k.write_preflight_decisions)
      × (write_quarantine_states host k ≡ ok k.write_quarantine_states)

  module _ (clock : ℕ → String) (k : RunKernel) (run : IsRun host clock k) where
    accepted :
        {A : Type 0} {Check : A → RunKernel → Type 0} (schema : A → Bool) (xs : List A)
        → From host k Check xs
        → ((x : A) (j : RunKernel) → Check x j → schema x ≡ true)
        → reparsed schema xs ≡ ok xs
    accepted schema xs from check =
        reparsed_lem schema xs λ x m. let (j, grown, before, c) = from x m in check x j c

    -- After any calls, the methods that read a kernel's lists return them: no parse of a recorded input throws.
    pub run-ReadsReturn : ReadsReturn k
    unfolding effect_requests effect_receipts external_state_observations mutations
        approval_requests approval_grants approval_denials approval_expiries proposals
        write_preflight_candidates write_preflight_decisions write_quarantine_states
        effect_request_guard receipt_guard observation_guard approval_request_guard grant_guard
        denial_guard expiry_guard candidate_guard decision_guard quarantine_guard
    run-ReadsReturn =
        let from = origins host k (run-Grown host clock k run) in
        (
          accepted (effect_request_schema host) k.effect_requests from.0
              (λ x j c. (entry_lem _ _ j c).0),
          accepted (effect_receipt_schema host) k.effect_receipts from.1
              (λ x j (id, c). entered _ _ j _ c),
          accepted (external_state_observation_schema host) k.external_state_observations from.2
              (λ x j (id, c). entered _ _ j _ c),
          accepted (mutation_committed_schema host) k.mutations from.3 (λ x j c. c.accepted),
          accepted (approval_request_schema host) k.approval_requests from.4
              (λ x j c. (entry_lem _ _ j c).0),
          accepted (approval_grant_schema host) k.approval_grants from.5
              (λ x j c. entered _ _ j _ c),
          accepted (approval_denial_schema host) k.approval_denials from.6
              (λ x j c. entered _ _ j _ c),
          accepted (approval_expiry_schema host) k.approval_expiries from.7
              (λ x j c. entered _ _ j _ c),
          accepted (proposal_schema host) k.proposals from.8 (λ x j c. proposal_accepted x j c),
          accepted (write_preflight_candidate_schema host) k.write_preflight_candidates from.9
              (λ x j c. (entry_lem _ _ j c).0),
          accepted (write_preflight_decision_schema host) k.write_preflight_decisions from.10
              (λ x j c. entered _ _ j _ c),
          accepted (write_quarantine_state_schema host) k.write_quarantine_states from.11
              (λ x j c. entered _ _ j _ c),
        )
