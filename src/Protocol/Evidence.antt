-- ===== src/Protocol/Evidence.antt =====
-- packages/protocol/src/evidence.ts
use amca_core.Common.{ℕ, ◌≡◌, Option, String, List, nat_eq, arith}
use amca_core.Common.Equality.{Eq, by_tag_iff}
use amca_core.Protocol.Json.{Fields}

pub data EvidenceKind : Type 0 where
  effect_receipt external_observation artifact test_output : EvidenceKind
  ledger_event : EvidenceKind

abbrev pub evidence_kind_tag : EvidenceKind → ℕ
evidence_kind_tag effect_receipt = 0
evidence_kind_tag external_observation = 1
evidence_kind_tag artifact = 2
evidence_kind_tag test_output = 3
evidence_kind_tag ledger_event = 4

pub evidence_kind_tag-injective :
    (a b : EvidenceKind) → evidence_kind_tag a ≡ evidence_kind_tag b → a ≡ b
evidence_kind_tag-injective a b h = ground arith

instance abbrev pub evidence_kind_has_eq : Eq EvidenceKind
evidence_kind_has_eq = record {
  beq = λ a b. nat_eq (evidence_kind_tag a) (evidence_kind_tag b);
  beq_iff = by_tag_iff evidence_kind_tag evidence_kind_tag-injective;
}

-- The text of the constant.
abbrev pub kind_name : EvidenceKind → String
kind_name effect_receipt = "effect_receipt"
kind_name external_observation = "external_observation"
kind_name artifact = "artifact"
kind_name test_output = "test_output"
kind_name ledger_event = "ledger_event"

pub data EvidenceSensitivity : Type 0 where
  public internal confidential restricted : EvidenceSensitivity

-- The text of the constant.
abbrev pub sensitivity_name : EvidenceSensitivity → String
sensitivity_name EvidenceSensitivity.public = "public"
sensitivity_name EvidenceSensitivity.internal = "internal"
sensitivity_name EvidenceSensitivity.confidential = "confidential"
sensitivity_name EvidenceSensitivity.restricted = "restricted"

pub data AdmissionStatus : Type 0 where
  admitted : AdmissionStatus

-- The text of the constant.
abbrev pub admission_name : AdmissionStatus → String
admission_name admitted = "admitted"

-- An admitted reference.
pub record EvidenceRef : Type 0 where
  pub admission_status : Option AdmissionStatus
  pub evidence_id : String
  pub kind : EvidenceKind
  pub source_event_id : String
  pub hash : String
  pub observed_at : String
  pub sensitivity : EvidenceSensitivity
  pub artifact_uri : Option String
  pub expires_at : Option String
  pub metadata : Option Fields

pub record ExternalStateObservation : Type 0 where
  pub observation_id : String
  pub run_id : String
  pub observation_type : String
  pub subject_type : String
  pub subject_id : String
  pub observed_state : Fields
  pub observed_at : String
  pub expires_at : String
  pub payload_hash : String
  pub evidence : List EvidenceRef
