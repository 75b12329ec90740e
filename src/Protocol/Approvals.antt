-- ===== src/Protocol/Approvals.antt =====
-- packages/protocol/src/approvals.ts
use amca_core.Common.{Option, String}
use amca_core.Protocol.Json.{Fields}
use amca_core.Protocol.Effects.{SideEffectClass}
use amca_core.Protocol.Claims.{Criticality}

pub data ApprovalScope : Type 0 where
  write_preflight :
      (preflight_id command_id capability_id tool_id : String)
      → SideEffectClass
      → (idempotency_key : Option String) → ApprovalScope
  mutation : (command_id mutation_id state_ref : String) → ApprovalScope

pub record ApprovalRequest : Type 0 where
  pub approval_id : String
  pub run_id : String
  pub requested_by : String
  pub scope : ApprovalScope
  pub criticality : Criticality
  pub reason : String
  pub requested_at : String
  pub expires_at : String
  pub metadata : Option Fields

pub record ApprovalGrant : Type 0 where
  pub approval_id : String
  pub run_id : String
  pub approver_id : String
  pub scope : ApprovalScope
  pub granted_at : String
  pub expires_at : String
  pub metadata : Option Fields

pub record ApprovalDenial : Type 0 where
  pub approval_id : String
  pub run_id : String
  pub approver_id : String
  pub scope : ApprovalScope
  pub reason : String
  pub denied_at : String
  pub metadata : Option Fields

pub record ApprovalExpiry : Type 0 where
  pub approval_id : String
  pub run_id : String
  pub scope : ApprovalScope
  pub expired_at : String
  pub metadata : Option Fields
