-- ===== src/Proof/Mismatches.antt =====
-- packages/proof/src/mismatch-builder.ts
use amca_core.Common.{ℕ, String, true, Option, ◌+s◌, decimal, sanitize_id_part}
use amca_core.Protocol.Json.{Value}
use amca_core.Protocol.Proofs.{Mismatch, MismatchType, mismatch_type_name}

pub record BlockingMismatchInput : Type 0 where
  pub mismatch_id : String
  pub run_id : String
  pub type : MismatchType
  pub message : String
  pub claim_id : Option String
  pub expected : Option Value
  pub actual : Option Value

unfoldable pub build_blocking_mismatch : BlockingMismatchInput → Mismatch
build_blocking_mismatch input = record {
  mismatch_id = input.mismatch_id;
  run_id = input.run_id;
  type = input.type;
  blocking = true;
  message = input.message;
  claim_id = input.claim_id;
  expected = input.expected;
  actual = input.actual;
}

unfoldable pub build_mismatch_id : String → MismatchType → ℕ → String
build_mismatch_id claim_id type sequence =
    "mismatch_"
    +s sanitize_id_part claim_id
    +s "_"
    +s mismatch_type_name type
    +s "_"
    +s decimal sequence
