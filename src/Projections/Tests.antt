-- ===== src/Projections/Tests.antt =====
-- A projection of two events.
use amca_core.Common.{refl, none, some, [], ◌∷◌, ◌≡◌}
use amca_core.Common.Outcome.{ok}
use amca_core.Protocol.Samples.{engine}
use amca_core.Protocol.Json.{nat}
use amca_core.Protocol.Payloads.{run_started, effect_requested}
use amca_core.Contracts.Json.Payloads.{payload_fields}
use amca_core.Kernel.RunSamples.{effect_request}
use amca_core.Projections.{TypedRunEvent, RunProjection, rebuild_run_projection, Checked}
use amca_core.Projections.Lists.{Projects, rebuilt-Projects}
use amca_core.Common.{is_white_space, is_blank, join, decimal, sanitize_id_part}
use amca_core.Contracts.Canonical.{
  insert_entry, sort_entries, object_text, canonical_hash, insert_field, canonical_json, reparse,
}
use amca_core.Contracts.Sha256.{rotate_right, sha256_hex}
use amca_core.Contracts.Utf8.{utf8_bytes}
use amca_core.Contracts.Schemas.{is_sha256_hash, is_safe_integer, is_safe_positive}
use amca_core.Contracts.Json.Effects.{effect_request_fields, effect_receipt_fields}
use amca_core.Contracts.Json.Payloads.{payload_fields}
use amca_core.Contracts.Schemas.Effects.{effect_request_schema, effect_receipt_schema}
use amca_core.Contracts.Schemas.Payloads.{payload_schema, run_event_schema}
use amca_core.Contracts.Canonical.Copies.{is_json, is_json_fields}
use amca_core.Projections.{
  initial_projection, apply_payload, apply, running_status, summary, to_projection, check_accepted,
  validate_accepted_event_sequence,
}

abbrev first : TypedRunEvent
first = record {
  event_id = "evt_1";
  run_id = "run_1";
  sequence = nat 1;
  type = "RunStarted";
  payload = run_started "run_1" none none;
  payload_hash = "sha256:22f5162fa163a3d658601ce84b268aee061b9e5ea9b5df3d1e32ace33c5f6369";
  causation_id = none;
  correlation_id = none;
  occurred_at = "2026-01-01T00:00:00.000Z";
}

abbrev second : TypedRunEvent
second = record {
  event_id = "evt_2";
  run_id = "run_1";
  sequence = nat 2;
  type = "EffectRequested";
  payload = effect_requested effect_request;
  payload_hash = "sha256:64371712b1fb258da1748bd8c9ecaaf05bd59eb9f050b07b3519d31245c200e0";
  causation_id = some "evt_1";
  correlation_id = none;
  occurred_at = "2026-01-01T00:00:00.000Z";
}

abbrev rebuilt : Checked RunProjection
rebuilt = rebuild_run_projection engine (first ∷ second ∷ [])

rebuilt_facts : (p : RunProjection) × (rebuilt ≡ ok p)
unfolding rebuild_run_projection is_white_space is_blank join decimal sanitize_id_part insert_entry
    sort_entries object_text canonical_hash insert_field canonical_json reparse rotate_right
    sha256_hex utf8_bytes is_sha256_hash is_safe_integer is_safe_positive effect_request_fields
    effect_receipt_fields payload_fields effect_request_schema effect_receipt_schema payload_schema
    run_event_schema is_json is_json_fields initial_projection apply_payload apply running_status
    summary to_projection check_accepted validate_accepted_event_sequence
rebuilt_facts = (_, refl)

rebuilt-Projects_example : Projects (first ∷ second ∷ []) rebuilt_facts.0
rebuilt-Projects_example =
    rebuilt-Projects engine (first ∷ second ∷ []) rebuilt_facts.0 rebuilt_facts.1
