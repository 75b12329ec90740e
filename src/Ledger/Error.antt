-- ===== src/Ledger/Error.antt =====
-- packages/ledger/src/errors.ts. The message of an error is not modelled.
pub data LedgerErrorCode : Type 0 where
  duplicate_event_id duplicate_sequence empty_event_id empty_run_id : LedgerErrorCode
  event_not_found integrity_violation invalid_causation_id invalid_payload : LedgerErrorCode
  invalid_sequence non_contiguous_sequence payload_hash_mismatch run_id_mismatch : LedgerErrorCode
  run_not_found tamper_detected : LedgerErrorCode
