-- ===== src/Kernel/Run/Commit.antt =====
-- packages/kernel/src/run-kernel.ts: the revisions of the state, and commitMutation.
use amca_core.Common.{ℕ, ◌+◌, String, Option, some, ◌∷◌, [], ◌++◌, not, if◌then◌else◌}
use amca_core.Common.Equality.{◌==◌, string_has_eq, nat_has_eq}
use amca_core.Common.Outcome as Outcome
use amca_core.Protocol.Json.{obj}
use amca_core.Protocol.Host.{Host}
use amca_core.Protocol.Mutations.{MutationCommandRequest, MutationCommitted}
use amca_core.Protocol.Payloads.{mutation_committed}
use amca_core.Contracts.Canonical.{canonical_hash}
use amca_core.Contracts.Schemas.Mutations.{
  mutation_command_request_schema, mutation_committed_schema,
}
use amca_core.Kernel.Events.{Event}
use amca_core.Kernel.Run.{
  RunKernelErrorCode, RunKernel, Check, Action, ◌>>=◌, ◌>>◌, gets, require, fail_if, parse,
  json_or_error,
}
use amca_core.Kernel.Run.Append.{
  KernelEventOptions, or_else, time_or_now, with_default_causation, append_event,
}
use amca_core.Kernel.Run.Guards.{
  entry, assert_mutation_command_payload_hash, assert_mutation_was_proposed,
  mutation_committed_hash_payload,
}

abbrev pub state_revision : RunKernel → String → ℕ
state_revision k state_ref = or_else (k.state_revisions state_ref) 0

-- `stateRevisions.set(stateRef, revision)`
abbrev pub set_revision : (String → Option ℕ) → String → ℕ → String → Option ℕ
set_revision revisions state_ref revision other =
    if other == state_ref then some revision else revisions other

abbrev pub push_mutation : MutationCommitted → RunKernel → RunKernel
push_mutation mutation k = record k {
  mutations = k.mutations ++ mutation ∷ [];
  state_revisions = set_revision k.state_revisions mutation.state_ref mutation.new_revision;
}

unfoldable pub committed_mutation : MutationCommandRequest → ℕ → String → String → MutationCommitted
committed_mutation command current_revision committed_at payload_hash = record {
  mutation_id = command.mutation_id;
  command_id = command.command_id;
  run_id = command.run_id;
  state_ref = command.state_ref;
  previous_revision = current_revision;
  new_revision = current_revision + 1;
  operation = command.operation;
  provenance = command.provenance;
  committed_at = committed_at;
  payload_hash = payload_hash;
  metadata = command.metadata;
}

module _ (host : Host) where
  -- The checks of commitMutation, before it makes the mutation.
  unfoldable pub commit_guard : MutationCommandRequest → RunKernel → Check (Unit {0})
  commit_guard command k =
      Outcome.◌>>◌ (entry (mutation_command_request_schema host command) command.run_id k) (
        Outcome.◌>>◌ (assert_mutation_command_payload_hash host command) (
          Outcome.◌>>◌ (assert_mutation_was_proposed host command k) (
            fail_if (not (state_revision k command.state_ref == command.expected_revision))
              RunKernelErrorCode.mutation_stale_revision)))

  module _ (clock : ℕ → String) where
    unfoldable pub commit_mutation : MutationCommandRequest → KernelEventOptions → Action Event
    commit_mutation command options = do
      require (commit_guard command)
      current_revision ← gets (λ k. state_revision k command.state_ref)
      committed_at ← time_or_now host clock options.occurred_at
      payload_hash ← require (λ k. json_or_error (
          canonical_hash host (
            obj (mutation_committed_hash_payload command current_revision (current_revision + 1)))))
      let mutation = committed_mutation command current_revision committed_at payload_hash
      require (λ k. parse (mutation_committed_schema host mutation))
      options_now ← gets (λ k. with_default_causation k options)
      event ← append_event host clock (mutation_committed mutation) options_now
      λ k. (Outcome.ok event, push_mutation mutation k)
