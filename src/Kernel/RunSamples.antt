-- ===== src/Kernel/RunSamples.antt =====
-- A run of the kernel: a request and its receipt, an approved critical write, a mutation, an observation.
use amca_core.Common.{ℕ, String, none, some, []}
use amca_core.Protocol.Samples.{engine}
use amca_core.Protocol.Json.{end}
use amca_core.Protocol.Effects.{EffectRequest, compute, critical_write}
use amca_core.Protocol.Preflight.{WritePreflightCandidate, WritePreflightDecision, allowed}
use amca_core.Protocol.Approvals.{ApprovalScope, ApprovalRequest, ApprovalGrant, write_preflight}
use amca_core.Protocol.Mutations.{MutationCommandRequest, delete, human_input}
use amca_core.Protocol.Claims.{high}
use amca_core.Proof.Samples.{input, test_receipt, issue_observation}
use amca_core.Kernel.Run.{RunKernel, Check}
use amca_core.Kernel.Run.Append.{no_options}
use amca_core.Kernel.Run.Submit.{SubmitOptions, SubmitFinalCandidateResult, submit_final_candidate}
use amca_core.Kernel.Run.Session.{fresh_kernel}
use amca_core.Kernel.Run.Steps.{Call, after_call}

abbrev pub clock : ℕ → String
clock n = "2026-01-01T00:00:00.000Z"

abbrev pub fresh : RunKernel
fresh = fresh_kernel "run_1" (record { run_id = "run_1"; events = []; event_ids = [] })

abbrev pub effect_request : EffectRequest
effect_request = record {
  effect_id = "eff_1";
  command_id = "cmd_1";
  run_id = "run_1";
  capability_id = "tests.run";
  tool_id = "tests";
  args = end;
  side_effect_class = compute;
  requested_at = "2026-01-01T00:00:00.000Z";
  idempotency_key = none;
}

abbrev scope : ApprovalScope
scope = write_preflight "pre_1" "cmd_2" "db.drop" "db" critical_write (some "key_1")

abbrev approval_request : ApprovalRequest
approval_request = record {
  approval_id = "app_1";
  run_id = "run_1";
  requested_by = "agent";
  scope = scope;
  criticality = high;
  reason = "drop";
  requested_at = "2026-01-01T00:00:00.000Z";
  expires_at = "2026-01-01T00:00:01.000Z";
  metadata = none;
}

abbrev pub approval_grant : ApprovalGrant
approval_grant = record {
  approval_id = "app_1";
  run_id = "run_1";
  approver_id = "owner";
  scope = scope;
  granted_at = "2026-01-01T00:00:00.000Z";
  expires_at = "2026-01-01T00:00:01.000Z";
  metadata = none;
}

abbrev candidate : WritePreflightCandidate
candidate = record {
  preflight_id = "pre_1";
  run_id = "run_1";
  command_id = "cmd_2";
  capability_id = "db.drop";
  tool_id = "db";
  side_effect_class = critical_write;
  args_hash = "sha256:82fa186e36dfbf76c842e1733ace258db0b041f9e026f33581131eb97f5efe78";
  requested_at = "2026-01-01T00:00:00.000Z";
  idempotency_key = some "key_1";
  metadata = none;
}

abbrev pub decision : WritePreflightDecision
decision = record {
  run_id = "run_1";
  preflight_id = "pre_1";
  command_id = "cmd_2";
  capability_id = "db.drop";
  tool_id = "db";
  side_effect_class = critical_write;
  idempotency_key = some "key_1";
  decided_at = "2026-01-01T00:00:00.000Z";
  verdict = allowed (some "app_1");
}

abbrev pub mutation : MutationCommandRequest
mutation = record {
  command_id = "cmd_3";
  mutation_id = "mut_1";
  run_id = "run_1";
  state_ref = "notes";
  operation = delete "old";
  expected_revision = 0;
  provenance = record {
    kind = human_input;
    source_event_id = "evt_7";
    reason = "cleanup";
    actor_id = none;
    metadata = none;
  };
  requested_at = "2026-01-01T00:00:00.000Z";
  payload_hash = "sha256:e42fc6185cb4877cc50943d656b541b4e05206153ca69f4b6c392736b76366ac";
  metadata = none;
}

abbrev run : Call → RunKernel → RunKernel
run = after_call engine clock

abbrev pub requested : RunKernel
requested =
    run (Call.effect_request effect_request no_options)
      (run (Call.start none none no_options) fresh)

abbrev pub approved : RunKernel
approved = run (Call.preflight_decided decision no_options) (
    run (Call.preflight_requested candidate no_options) (
      run (Call.grant approval_grant no_options)
        (run (Call.approval_request approval_request no_options) requested)))

abbrev pub proposed : RunKernel
proposed = run (Call.mutation_command mutation no_options) approved

abbrev pub admitted : RunKernel
admitted =
    run (Call.observation issue_observation (record no_options { event_id = some "evt_8" })) (
      run (Call.receipt test_receipt (record no_options { event_id = some "evt_7" }))
        (run (Call.commit mutation no_options) proposed))

abbrev pub options : SubmitOptions
options = record {
  event_options = no_options;
  generated_at = some "2026-01-01T00:00:01.000Z";
  proof_event_id = none;
  proof_id = some "proof_1";
  mismatch_event_ids = none;
  release_event_id = none;
  final_released_event_id = none;
}

abbrev pub outcome : Check SubmitFinalCandidateResult
outcome = (submit_final_candidate engine clock input.candidate options admitted).0
