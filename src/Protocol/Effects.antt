-- ===== src/Protocol/Effects.antt =====
-- packages/protocol/src/effects.ts: effects and their receipts.
use amca_core.Common.{ℕ, ◌≡◌, Option, String, List, nat_eq, arith}
use amca_core.Common.Equality.{Eq, by_tag_iff}
use amca_core.Protocol.Json.{Fields}
use amca_core.Protocol.Evidence.{EvidenceRef}

pub data SideEffectClass : Type 0 where
  read compute idempotent_write reversible_write : SideEffectClass
  irreversible_write critical_write : SideEffectClass

-- The text of the constant.
abbrev pub side_effect_class_name : SideEffectClass → String
side_effect_class_name SideEffectClass.read = "read"
side_effect_class_name SideEffectClass.compute = "compute"
side_effect_class_name SideEffectClass.idempotent_write = "idempotent_write"
side_effect_class_name SideEffectClass.reversible_write = "reversible_write"
side_effect_class_name SideEffectClass.irreversible_write = "irreversible_write"
side_effect_class_name SideEffectClass.critical_write = "critical_write"

abbrev pub side_effect_class_tag : SideEffectClass → ℕ
side_effect_class_tag read = 0
side_effect_class_tag compute = 1
side_effect_class_tag idempotent_write = 2
side_effect_class_tag reversible_write = 3
side_effect_class_tag irreversible_write = 4
side_effect_class_tag critical_write = 5

pub side_effect_class_tag-injective :
    (a b : SideEffectClass) → side_effect_class_tag a ≡ side_effect_class_tag b → a ≡ b
side_effect_class_tag-injective a b h = ground arith

instance abbrev pub side_effect_class_has_eq : Eq SideEffectClass
side_effect_class_has_eq = record {
  beq = λ a b. nat_eq (side_effect_class_tag a) (side_effect_class_tag b);
  beq_iff = by_tag_iff side_effect_class_tag side_effect_class_tag-injective;
}

pub data EffectStatus : Type 0 where
  succeeded failed unknown : EffectStatus

-- The text of the constant.
abbrev pub effect_status_name : EffectStatus → String
effect_status_name EffectStatus.succeeded = "succeeded"
effect_status_name EffectStatus.failed = "failed"
effect_status_name EffectStatus.unknown = "unknown"

abbrev pub effect_status_tag : EffectStatus → ℕ
effect_status_tag succeeded = 0
effect_status_tag failed = 1
effect_status_tag unknown = 2

pub effect_status_tag-injective :
    (a b : EffectStatus) → effect_status_tag a ≡ effect_status_tag b → a ≡ b
effect_status_tag-injective a b h = ground arith

instance abbrev pub effect_status_has_eq : Eq EffectStatus
effect_status_has_eq = record {
  beq = λ a b. nat_eq (effect_status_tag a) (effect_status_tag b);
  beq_iff = by_tag_iff effect_status_tag effect_status_tag-injective;
}

pub record EffectRequest : Type 0 where
  pub effect_id : String
  pub command_id : String
  pub run_id : String
  pub capability_id : String
  pub tool_id : String
  pub args : Fields
  pub side_effect_class : SideEffectClass
  pub requested_at : String
  pub idempotency_key : Option String

pub record EffectReceipt : Type 0 where
  pub receipt_id : String
  pub effect_id : String
  pub run_id : String
  pub capability_id : String
  pub receipt_type : String
  pub status : EffectStatus
  pub payload : Fields
  pub payload_hash : String
  pub evidence : List EvidenceRef
  pub observed_at : String
  pub external_ref : Option String
