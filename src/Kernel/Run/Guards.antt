-- ===== src/Kernel/Run/Guards.antt =====
-- packages/kernel/src/run-kernel.ts: the checks on proposals, mutations, receipts and observations.
use amca_core.Common.{
  ℕ, String, Bool, not, ◌&&◌, Option, none, some, List, any, find, if◌then◌else◌,
}
use amca_core.Common.Equality.{◌==◌, string_has_eq, nat_has_eq}
use amca_core.Common.Outcome.{ok, err, ◌>>=◌, ◌>>◌}
use amca_core.Protocol.Json.{Fields, str, num, nat, obj, field, end}
use amca_core.Protocol.Host.{Host}
use amca_core.Protocol.Evidence.{EvidenceKind, EvidenceRef, evidence_kind_has_eq}
use amca_core.Protocol.Effects.{EffectReceipt}
use amca_core.Protocol.Mutations.{MutationCommandRequest, Proposal, mutation_command}
use amca_core.Contracts.Canonical.{canonical_hash}
use amca_core.Contracts.Json.{optional}
use amca_core.Contracts.Json.Mutations.{
  mutation_command_request_fields, mutation_operation_fields, mutation_provenance_fields,
}
use amca_core.Kernel.Run.{
  RunKernelErrorCode, KernelError, RunKernel, Check, fail_if, parse, json_or_error,
}
use amca_core.Kernel.Run.Append.{assert_started, assert_input_run_id}

-- `if (value === undefined) throw new RunKernelError(code, …)`
abbrev pub found : {A : Type 0} → Option A → RunKernelErrorCode → Check A
found none code = err (KernelError.kernel_error code)
found (some a) code = ok a

-- What the methods begin with: the run has started, the input has its schema, and is of the run.
unfoldable pub entry : Bool → String → RunKernel → Check (Unit {0})
unfolding assert_started assert_input_run_id
entry schema input_run_id k = do assert_started k; parse schema; assert_input_run_id input_run_id k

unfoldable pub mutation_command_hash_payload : MutationCommandRequest → Fields
mutation_command_hash_payload command = field "kind" (str "mutation_command_request") (
    field "commandId" (str command.command_id) (
      field "mutationId" (str command.mutation_id) (
        field "runId" (str command.run_id) (
          field "target" (obj (field "stateRef" (str command.state_ref) end)) (
            field "operation" (obj (mutation_operation_fields command.operation)) (
              field "precondition"
                (obj (field "expectedRevision" (num (nat command.expected_revision)) end))
                (field "provenance" (obj (mutation_provenance_fields command.provenance)) (
                  field "requestedAt" (str command.requested_at)
                    (optional obj "metadata" command.metadata end)))))))))

unfoldable pub mutation_committed_hash_payload : MutationCommandRequest → ℕ → ℕ → Fields
mutation_committed_hash_payload command previous_revision new_revision =
    field "kind" (str "mutation_committed") (
      field "mutationId" (str command.mutation_id) (
        field "commandId" (str command.command_id) (
          field "runId" (str command.run_id) (
            field "stateRef" (str command.state_ref) (
              field "previousRevision" (num (nat previous_revision)) (
                field "newRevision" (num (nat new_revision)) (
                  field "operation" (obj (mutation_operation_fields command.operation)) (
                    field "provenance" (obj (mutation_provenance_fields command.provenance))
                      (optional obj "metadata" command.metadata end)))))))))

-- The test of `find` in assertMutationWasProposed.
abbrev pub proposed_command : Proposal → Option MutationCommandRequest
proposed_command (mutation_command command) = some command
proposed_command _ = none

abbrev pub find_command : MutationCommandRequest → List Proposal → Option MutationCommandRequest
find_command command List.[] = none
find_command command (List.◌∷◌ (mutation_command candidate) proposals) =
    let rest = find_command command proposals in
    if candidate.command_id == command.command_id && candidate.mutation_id == command.mutation_id
    then some candidate
    else rest
find_command command (List.◌∷◌ _ proposals) = find_command command proposals

module _ (host : Host) where
  -- `canonicalObjectHash(left) !== canonicalObjectHash(right)`
  unfoldable pub same_hash : Fields → Fields → Check Bool
  same_hash left right = do
    left_hash ← json_or_error (canonical_hash host (obj left))
    right_hash ← json_or_error (canonical_hash host (obj right))
    ok (left_hash == right_hash)

  unfoldable pub assert_hash : Fields → String → RunKernelErrorCode → Check (Unit {0})
  assert_hash payload payload_hash code = do
    actual_hash ← json_or_error (canonical_hash host (obj payload))
    fail_if (not (payload_hash == actual_hash)) code

  unfoldable pub assert_mutation_command_payload_hash : MutationCommandRequest → Check (Unit {0})
  unfolding assert_hash mutation_command_hash_payload
  assert_mutation_command_payload_hash command =
      assert_hash (mutation_command_hash_payload command) command.payload_hash
        RunKernelErrorCode.mutation_hash_mismatch

  unfoldable pub assert_mutation_was_proposed :
      MutationCommandRequest → RunKernel → Check (Unit {0})
  unfolding same_hash
  assert_mutation_was_proposed command k = do
    proposal ←
        found (find_command command k.proposals) RunKernelErrorCode.mutation_proposal_not_found
    same ←
        same_hash (mutation_command_request_fields proposal)
          (mutation_command_request_fields command)
    fail_if (not same) RunKernelErrorCode.mutation_hash_mismatch

  unfoldable pub assert_effect_request_for_receipt : EffectReceipt → RunKernel → Check (Unit {0})
  assert_effect_request_for_receipt receipt k = do
    effect_request ←
        found (find (λ request. request.effect_id == receipt.effect_id) k.effect_requests)
          RunKernelErrorCode.effect_request_not_found
    fail_if (not (effect_request.capability_id == receipt.capability_id))
        RunKernelErrorCode.effect_request_mismatch

  unfoldable pub assert_payload_hash : Fields → String → Check (Unit {0})
  unfolding assert_hash
  assert_payload_hash payload payload_hash =
      assert_hash payload payload_hash RunKernelErrorCode.payload_hash_mismatch

unfoldable pub assert_admitted_evidence_refs :
    List EvidenceRef → String → EvidenceKind → String → Check (Unit {0})
assert_admitted_evidence_refs evidence_refs expected_source_event_id expected_kind expected_hash =
    do
      fail_if (any (λ ref. not (ref.source_event_id == expected_source_event_id)) evidence_refs)
          RunKernelErrorCode.evidence_source_event_mismatch
      fail_if (any (λ ref. not (ref.kind == expected_kind)) evidence_refs)
          RunKernelErrorCode.evidence_kind_mismatch
      fail_if (any (λ ref. not (ref.hash == expected_hash)) evidence_refs)
          RunKernelErrorCode.evidence_hash_mismatch
