-- ===== src/Protocol/Preflight.antt =====
-- packages/protocol/src/effects.ts: the preflight of a write
use amca_core.Common.{Option, String}
use amca_core.Protocol.Json.{Fields}
use amca_core.Protocol.Effects.{SideEffectClass}

-- The side effect class of a write is one of the four write classes by its type.
pub record WritePreflightCandidate : Type 0 where
  pub preflight_id : String
  pub run_id : String
  pub command_id : String
  pub capability_id : String
  pub tool_id : String
  pub side_effect_class : SideEffectClass
  pub args_hash : String
  pub requested_at : String
  pub idempotency_key : Option String
  pub metadata : Option Fields

pub data WriteQuarantineReason : Type 0 where
  adapter_not_certified critical_approval_required : WriteQuarantineReason
  uncertain_external_effect unsupported_side_effect_class : WriteQuarantineReason

-- The text of the constant.
abbrev pub quarantine_reason_name : WriteQuarantineReason → String
quarantine_reason_name WriteQuarantineReason.adapter_not_certified = "adapter_not_certified"
quarantine_reason_name WriteQuarantineReason.critical_approval_required =
    "critical_approval_required"
quarantine_reason_name WriteQuarantineReason.uncertain_external_effect = "uncertain_external_effect"
quarantine_reason_name WriteQuarantineReason.unsupported_side_effect_class =
    "unsupported_side_effect_class"

pub data WritePreflightBlockReason : Type 0 where
  adapter_not_certified capability_not_registered : WritePreflightBlockReason
  critical_approval_required missing_idempotency_key policy_denied : WritePreflightBlockReason
  tool_not_registered unsupported_side_effect_class : WritePreflightBlockReason

-- The text of the constant.
abbrev pub block_reason_name : WritePreflightBlockReason → String
block_reason_name WritePreflightBlockReason.adapter_not_certified = "adapter_not_certified"
block_reason_name WritePreflightBlockReason.capability_not_registered = "capability_not_registered"
block_reason_name WritePreflightBlockReason.critical_approval_required =
    "critical_approval_required"
block_reason_name WritePreflightBlockReason.missing_idempotency_key = "missing_idempotency_key"
block_reason_name WritePreflightBlockReason.policy_denied = "policy_denied"
block_reason_name WritePreflightBlockReason.tool_not_registered = "tool_not_registered"
block_reason_name WritePreflightBlockReason.unsupported_side_effect_class =
    "unsupported_side_effect_class"

pub record WriteQuarantineState : Type 0 where
  pub quarantine_id : String
  pub run_id : String
  pub preflight_id : String
  pub command_id : String
  pub capability_id : String
  pub tool_id : String
  pub side_effect_class : SideEffectClass
  pub reason : WriteQuarantineReason
  pub message : String
  pub quarantined_at : String
  pub idempotency_key : Option String
  pub metadata : Option Fields

-- What `status` tells apart. An allowed decision may name an approval.
pub data Verdict : Type 0 where
  allowed : Option String → Verdict
  denied : WritePreflightBlockReason → String → Verdict
  quarantined : WriteQuarantineState → Verdict

-- The idempotency key of an allowed decision is there by its type.
pub record WritePreflightDecision : Type 0 where
  pub run_id : String
  pub preflight_id : String
  pub command_id : String
  pub capability_id : String
  pub tool_id : String
  pub side_effect_class : SideEffectClass
  pub idempotency_key : Option String
  pub decided_at : String
  pub verdict : Verdict
