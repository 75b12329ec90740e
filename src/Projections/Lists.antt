-- ===== src/Projections/Lists.antt =====
-- packages/projections/src/run-projection.ts: what the projection of a stream holds.
use mathlib.Core.Path.{subst}
use mathlib.Core.List.{append_assoc, append-nil}
use amca_core.Common.{
  ℕ, ◌+◌, String, Option, ◌≡◌, refl, sym, ap, ◌∙◌, List, [], ◌∷◌, ◌++◌, length, map, arith,
}
use amca_core.Common.Outcome.{ok, bind-eq-ok, ok_inj}
use amca_core.Protocol.Json.{Fields}
use amca_core.Protocol.Host.{Host}
use amca_core.Protocol.Evidence.{ExternalStateObservation}
use amca_core.Protocol.Effects.{EffectRequest, EffectReceipt}
use amca_core.Protocol.Claims.{FinalCandidate}
use amca_core.Protocol.Mutations.{Proposal, final_candidate}
use amca_core.Protocol.Proofs.{ProofObject, Mismatch, ReleaseDecision}
use amca_core.Protocol.Payloads.{
  RunEventPayload, run_started, proposal_received, effect_requested, effect_receipt_recorded,
  external_state_observed, proof_generated, mismatch_detected, release_decided, final_released,
  write_preflight_requested, write_preflight_decided, write_quarantined, mutation_committed,
  approval_requested, approval_granted, approval_denied, approval_expired,
}
use amca_core.Projections.{
  TypedRunEvent, MutableRunProjection, RunProjection, check_all, check_accepted, from_started,
  rebuild_from, validate_accepted_event_sequence, apply_payload, apply, apply_all, to_projection,
  summary, rebuild_run_projection, initial_projection,
}

-- What an event adds to each list of a projection.
abbrev pub proposal_of : RunEventPayload → List Proposal
proposal_of (proposal_received x) = x ∷ []
proposal_of _ = []

abbrev pub candidate_of : RunEventPayload → List FinalCandidate
candidate_of (proposal_received (final_candidate x)) = x ∷ []
candidate_of _ = []

abbrev pub effect_request_of : RunEventPayload → List EffectRequest
effect_request_of (effect_requested x) = x ∷ []
effect_request_of _ = []

abbrev pub receipt_of : RunEventPayload → List EffectReceipt
receipt_of (effect_receipt_recorded x) = x ∷ []
receipt_of _ = []

abbrev pub observation_of : RunEventPayload → List ExternalStateObservation
observation_of (external_state_observed x) = x ∷ []
observation_of _ = []

abbrev pub proof_of : RunEventPayload → List ProofObject
proof_of (proof_generated x) = x ∷ []
proof_of _ = []

abbrev pub mismatch_of : RunEventPayload → List Mismatch
mismatch_of (mismatch_detected x) = x ∷ []
mismatch_of _ = []

abbrev pub decision_of : RunEventPayload → List ReleaseDecision
decision_of (release_decided x) = x ∷ []
decision_of _ = []

-- In the order of the events.
abbrev pub collect : {A : Type 0} → (RunEventPayload → List A) → List TypedRunEvent → List A
collect read [] = []
collect read (e ∷ es) = read e.payload ++ collect read es

collected :
    {A : Type 0} (get : MutableRunProjection → List A) (read : RunEventPayload → List A)
    → ((e : TypedRunEvent) (p : MutableRunProjection) → get (apply e p) ≡ get p ++ read e.payload)
    → (es : List TypedRunEvent) (p : MutableRunProjection)
    → get (apply_all es p) ≡ get p ++ collect read es
collected get read step [] p = sym (append-nil (get p))
collected get read step (e ∷ es) p =
    collected get read step es (apply e p)
    ∙ ap (λ xs. xs ++ collect read es) (step e p)
    ∙ append_assoc (get p) (read e.payload) (collect read es)

proposals_step :
    (x : RunEventPayload) (p : MutableRunProjection)
    → (apply_payload x p).proposals ≡ p.proposals ++ proposal_of x
unfolding apply_payload
proposals_step x p = ground (arith, append-nil p.proposals)

final_candidates_step :
    (x : RunEventPayload) (p : MutableRunProjection)
    → (apply_payload x p).final_candidates ≡ p.final_candidates ++ candidate_of x
unfolding apply_payload
final_candidates_step x p = ground (arith, append-nil p.final_candidates)

effect_requests_step :
    (x : RunEventPayload) (p : MutableRunProjection)
    → (apply_payload x p).effect_requests ≡ p.effect_requests ++ effect_request_of x
unfolding apply_payload
effect_requests_step x p = ground (arith, append-nil p.effect_requests)

receipts_step :
    (x : RunEventPayload) (p : MutableRunProjection)
    → (apply_payload x p).receipts ≡ p.receipts ++ receipt_of x
unfolding apply_payload
receipts_step x p = ground (arith, append-nil p.receipts)

observations_step :
    (x : RunEventPayload) (p : MutableRunProjection)
    → (apply_payload x p).observations ≡ p.observations ++ observation_of x
unfolding apply_payload
observations_step x p = ground (arith, append-nil p.observations)

proofs_step :
    (x : RunEventPayload) (p : MutableRunProjection)
    → (apply_payload x p).proofs ≡ p.proofs ++ proof_of x
unfolding apply_payload
proofs_step x p = ground (arith, append-nil p.proofs)

mismatches_step :
    (x : RunEventPayload) (p : MutableRunProjection)
    → (apply_payload x p).mismatches ≡ p.mismatches ++ mismatch_of x
unfolding apply_payload
mismatches_step x p = ground (arith, append-nil p.mismatches)

release_decisions_step :
    (x : RunEventPayload) (p : MutableRunProjection)
    → (apply_payload x p).release_decisions ≡ p.release_decisions ++ decision_of x
unfolding apply_payload
release_decisions_step x p = ground (arith, append-nil p.release_decisions)

ids_step :
    (x : RunEventPayload) (p : MutableRunProjection) → (apply_payload x p).event_ids ≡ p.event_ids
unfolding apply_payload
ids_step x p = ground arith

abbrev pub ids_of : List TypedRunEvent → List String
ids_of es = map (λ e. e.event_id) es

event_ids_applied :
    (es : List TypedRunEvent) (p : MutableRunProjection)
    → (apply_all es p).event_ids ≡ p.event_ids ++ ids_of es
unfolding apply
event_ids_applied [] p = sym (append-nil p.event_ids)
event_ids_applied (e ∷ es) p =
    event_ids_applied es (apply e p)
    ∙ ap (λ xs. xs ++ ids_of es) (ids_step e.payload _)
    ∙ append_assoc p.event_ids (e.event_id ∷ []) (ids_of es)

-- A projection has, in the order of the events, what each of them adds to each list, and counts them.
abbrev pub Projects : List TypedRunEvent → RunProjection → Type 0
Projects es p =
    (p.event_ids ≡ ids_of es)
    × (p.summary.event_count ≡ length (ids_of es))
    × (p.proposals ≡ collect proposal_of es)
    × (p.final_candidates ≡ collect candidate_of es)
    × (p.effect_requests ≡ collect effect_request_of es)
    × (p.receipts ≡ collect receipt_of es)
    × (p.observations ≡ collect observation_of es)
    × (p.proofs ≡ collect proof_of es)
    × (p.mismatches ≡ collect mismatch_of es)
    × (p.release_decisions ≡ collect decision_of es)

started-Projects :
    (run_id : String) (profile : Option String) (metadata : Option Fields) (e : TypedRunEvent)
    (es : List TypedRunEvent)
    → Projects
        (record e { payload = run_started run_id profile metadata } ∷ es)
        (to_projection (apply_all es (initial_projection run_id profile metadata e)))
unfolding to_projection summary initial_projection apply
started-Projects run_id profile metadata e es =
    let p = initial_projection run_id profile metadata e in
    (
      event_ids_applied es p,
      ap length (event_ids_applied es p),
      collected (λ q. q.proposals) proposal_of (λ e q. proposals_step e.payload _) es p,
      collected (λ q. q.final_candidates) candidate_of (λ e q. final_candidates_step e.payload _) es
          p,
      collected (λ q. q.effect_requests) effect_request_of (λ e q. effect_requests_step e.payload _)
          es p,
      collected (λ q. q.receipts) receipt_of (λ e q. receipts_step e.payload _) es p,
      collected (λ q. q.observations) observation_of (λ e q. observations_step e.payload _) es p,
      collected (λ q. q.proofs) proof_of (λ e q. proofs_step e.payload _) es p,
      collected (λ q. q.mismatches) mismatch_of (λ e q. mismatches_step e.payload _) es p,
      collected (λ q. q.release_decisions) decision_of (λ e q. release_decisions_step e.payload _)
          es p,
    )

checked_same :
    (host : Host) (run_id : String) (index : ℕ) (ids : List String) (es cs : List TypedRunEvent)
    → check_all host run_id index ids es ≡ ok cs
    → cs ≡ es
checked_same host run_id index ids [] cs h = sym (ok_inj h)
checked_same host run_id index ids (e ∷ es) cs h =
    let (_, _, h1) = bind-eq-ok (check_accepted host run_id index ids e) _ h in
    let (rest, others, h2) =
      bind-eq-ok (check_all host run_id (index + 1) (ids ++ e.event_id ∷ []) es) _ h1 in
    sym (ok_inj h2)
    ∙ ap (λ xs. e ∷ xs)
        (checked_same host run_id (index + 1) (ids ++ e.event_id ∷ []) es rest others)

rebuilt_lem :
    (host : Host) (es : List TypedRunEvent) (p : RunProjection)
    → rebuild_from host es ≡ ok p
    → Projects es p
rebuilt_lem host [] p h = cc
rebuilt_lem host (e ∷ es) p h = go e.payload refl h
  where
    go :
        (x : RunEventPayload)
        → e.payload ≡ x
        → from_started host e x es ≡ ok p
        → Projects (e ∷ es) p
    go (run_started run_id profile metadata) is h =
        let q = to_projection (apply_all es (initial_projection run_id profile metadata e)) in
        subst (Projects (e ∷ es)) (ok_inj h) (
          subst (λ x. Projects (record e { payload = x } ∷ es) q) (sym is)
            (started-Projects run_id profile metadata e es))
    go (proposal_received x) is h = cc
    go (effect_requested x) is h = cc
    go (write_preflight_requested x) is h = cc
    go (write_preflight_decided x) is h = cc
    go (write_quarantined x) is h = cc
    go (mutation_committed x) is h = cc
    go (approval_requested x) is h = cc
    go (approval_granted x) is h = cc
    go (approval_denied x) is h = cc
    go (approval_expired x) is h = cc
    go (effect_receipt_recorded x) is h = cc
    go (external_state_observed x) is h = cc
    go (proof_generated x) is h = cc
    go (mismatch_detected x) is h = cc
    go (release_decided x) is h = cc
    go (final_released x y) is h = cc

-- Where a projection is rebuilt from a stream of events, it has the id of each of them, and each list of it is
-- that of what the events of its type carry, in their order.
pub rebuilt-Projects :
    (host : Host) (es : List TypedRunEvent) (p : RunProjection)
    → rebuild_run_projection host es ≡ ok p
    → Projects es p
unfolding rebuild_run_projection validate_accepted_event_sequence
rebuilt-Projects host [] p h = cc
rebuilt-Projects host (e ∷ es) p h =
    let (cs, checked, h1) = bind-eq-ok (check_all host e.run_id 0 [] (e ∷ es)) _ h in
    let same = checked_same host e.run_id 0 [] (e ∷ es) cs checked in
    rebuilt_lem host (e ∷ es) p (subst (λ xs. rebuild_from host xs ≡ ok p) same h1)
