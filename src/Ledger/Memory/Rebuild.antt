-- ===== src/Ledger/Memory/Rebuild.antt =====
-- packages/ledger/src/semantic-ledger.ts: a ledger made from the stream of one run.
use mathlib.Core.Path.{subst}
use mathlib.Core.List.{append_assoc, append-nil}
use amca_core.Common.{
  ℕ, ◌+◌, String, false, some, ◌≡◌, refl, sym, ap, ◌∙◌, inl, inr, List, [], ◌∷◌, ◌++◌, map, length,
  length-append, is_blank, arith, All,
}
use amca_core.Common.Equality.{string_has_eq, str_eq_iff}
use amca_core.Common.Outcome.{ok, err, ◌>>◌, bind-eq-ok, ok_inj, Result-cases}
use amca_core.Protocol.Json.{Number}
use amca_core.Protocol.Host.{Host}
use amca_core.Ledger.Event.{Event, Attempt, assert_non_empty_id, clone_run_events}
use amca_core.Ledger.Event.Clone.{clone_of, clone_run_event_lem}
use amca_core.Ledger.Stream.{check_ordered_event, check_ordered_events, validate_ordered_run_events}
use amca_core.Ledger.Stream.Snoc.{event_ids, sequences}
use amca_core.Ledger.Memory.{Ledger, empty, append_accepted_event_sync, append_all}
use amca_core.Ledger.Memory.Integrity.{
  is_ok, IsIntact, run_of, appended, append_guards, append_accepted, append-IsIntact,
  append_all-IsIntact, ok_unit, empty-IsIntact, event_ids-snoc,
}
use amca_core.Ledger.Memory.Refinement.{checked_shape}

stopped :
    {A : Type 0} (m : Attempt (Unit {0})) (k : Attempt A) → is_ok m ≡ false → is_ok (m >> k) ≡ false
stopped (ok a) k h = cc
stopped (err e) k h = refl

module _ (host : Host) where
  run_of-appended :
      (event : Event) (ledger : Ledger) (run_id : String)
      → event.run_id ≡ run_id
      → run_of host (appended host event ledger) run_id
        ≡ run_of host ledger run_id ++ clone_of host event ∷ []
  run_of-appended event ledger run_id h = rw ((str_eq_iff event.run_id run_id).1 h, h)

  sequences-snoc :
      (es : List Event) (e : Event)
      → sequences (es ++ clone_of host e ∷ []) ≡ sequences es ++ e.sequence ∷ []
  sequences-snoc [] e = refl
  sequences-snoc (x ∷ es) e = ap (λ ns. x.sequence ∷ ns) (sequences-snoc es e)

  length-snoc : (es : List Event) (e : Event) → length (es ++ e ∷ []) ≡ length es + 1
  length-snoc es e = length-append es (e ∷ [])

  -- Appending events of one run, one after the other, checks them behind the stored events of the run.
  append_all_checked :
      (run_id : String) (events : List Event) (ledger : Ledger)
      → IsIntact host ledger
      → All (λ e. e.run_id ≡ run_id) events
      → is_ok (append_all host events ledger)
        ≡ is_ok (
            check_ordered_events host run_id
              (length (run_of host ledger run_id))
              (event_ids (run_of host ledger run_id))
              (sequences (run_of host ledger run_id))
              events)
  unfolding append_all check_ordered_events
  append_all_checked run_id [] ledger intact same = refl
  append_all_checked run_id (e ∷ es) ledger intact (here, others) =
      let guards =
        subst
          (λ r.
            is_ok (append_accepted_event_sync host e ledger)
            ≡ is_ok (
                check_ordered_event host r (length (run_of host ledger r))
                  (event_ids (run_of host ledger r)) (sequences (run_of host ledger r)) e))
          here (append_guards host e ledger intact) in
      elim (Result-cases (append_accepted_event_sync host e ledger)) [
        | inl (result, accepted) ↦
            let checked = ok_unit host _ (sym guards ∙ ap is_ok accepted) in
            let stored =
              ap (λ r. run_of host r.1 run_id) (append_accepted host e ledger result accepted).0
              ∙ run_of-appended e ledger run_id here in
            let rest =
              append_all_checked run_id es result.1
                (append-IsIntact host e ledger result intact accepted) others in
            rw (accepted, checked)
              (rw (stored, length-snoc, event_ids-snoc, sequences-snoc) at rest)
        | inr (code, refused) ↦ rw refused (sym (stopped _ _ (sym guards ∙ ap is_ok refused)))
      ]

  clones_of_checked :
      (run_id : String) (index : ℕ) (ids : List String) (ns : List Number) (events : List Event)
      → check_ordered_events host run_id index ids ns events ≡ ok tt
      → clone_run_events host events ≡ ok (map (clone_of host) events)
  unfolding check_ordered_events clone_run_events
  clones_of_checked run_id index ids ns [] h = refl
  clones_of_checked run_id index ids ns (e ∷ es) h =
      let (_, one, rest) = bind-eq-ok (check_ordered_event host run_id index ids ns e) _ h in
      rw
        (
          clone_run_event_lem host e (checked_shape host e run_id index ids ns one),
          clones_of_checked run_id (index + 1) _ _ es rest,
        )
        refl

  -- Validating a stream for a named run is checking its order: the clones then exist.
  validate-checks :
      (run_id : String) (events : List Event)
      → is_blank run_id ≡ false
      → is_ok (validate_ordered_run_events host events (some run_id))
        ≡ is_ok (check_ordered_events host run_id 0 [] [] events)
  unfolding validate_ordered_run_events check_ordered_events assert_non_empty_id
  validate-checks run_id [] named = refl
  validate-checks run_id (e ∷ es) named =
      elim (Result-cases (check_ordered_events host run_id 0 [] [] (e ∷ es))) [
        | inl (_, good) ↦ rw (named, good, clones_of_checked run_id 0 [] [] (e ∷ es) good) refl
        | inr (code, bad) ↦ rw (named, bad) refl
      ]

  -- A new ledger accepts the events of one named run, one after the other, exactly when they validate
  -- as the stream of that run.
  pub append_all_iff_validates :
      (run_id : String) (events : List Event)
      → is_blank run_id ≡ false
      → All (λ e. e.run_id ≡ run_id) events
      → is_ok (append_all host events empty)
        ≡ is_ok (validate_ordered_run_events host events (some run_id))
  append_all_iff_validates run_id events named same =
      append_all_checked run_id events empty (empty-IsIntact host) same
      ∙ sym (validate-checks run_id events named)

  append_all_stores :
      (run_id : String) (events : List Event) (ledger final : Ledger)
      → All (λ e. e.run_id ≡ run_id) events
      → append_all host events ledger ≡ ok final
      → run_of host final run_id ≡ run_of host ledger run_id ++ map (clone_of host) events
  unfolding append_all
  append_all_stores run_id [] ledger final same h = rw (sym (ok_inj h), append-nil)
  append_all_stores run_id (e ∷ es) ledger final (here, others) h =
      let (result, accepted, rest) = bind-eq-ok (append_accepted_event_sync host e ledger) _ h in
      let stored =
        ap (λ r. run_of host r.1 run_id) (append_accepted host e ledger result accepted).0
        ∙ run_of-appended e ledger run_id here in
      append_all_stores run_id es result.1 final others rest
      ∙ rw
          (
            stored,
            append_assoc (run_of host ledger run_id) (clone_of host e ∷ [])
                (map (clone_of host) es),
          )
          refl

  run_ids_checked :
      (run_id : String) (index : ℕ) (ids : List String) (ns : List Number) (events : List Event)
      → check_ordered_events host run_id index ids ns events ≡ ok tt
      → All (λ e. e.run_id ≡ run_id) events
  unfolding check_ordered_events check_ordered_event
  run_ids_checked run_id index ids ns [] h = tt
  run_ids_checked run_id index ids ns (e ∷ es) h =
      let (_, one, rest) = bind-eq-ok (check_ordered_event host run_id index ids ns e) _ h in
      (ground (arith, str_eq_iff e.run_id run_id), run_ids_checked run_id (index + 1) _ _ es rest)

  -- The events of a run in an intact ledger make a new ledger, which is intact and has the same events
  -- for that run.
  pub rebuild_run :
      (ledger : Ledger) (run_id : String) (events : List Event)
      → IsIntact host ledger
      → ledger.events_by_run run_id ≡ some events
      → (rebuilt : Ledger) × (append_all host events empty ≡ ok rebuilt)
        × IsIntact host rebuilt
        × (run_of host rebuilt run_id ≡ events)
  rebuild_run ledger run_id events intact h =
      let s = intact.stored run_id events h in
      let same = run_ids_checked run_id 0 [] [] events s.ordered in
      let accepts =
        append_all_checked run_id events empty (empty-IsIntact host) same ∙ ap is_ok s.ordered in
      elim (Result-cases (append_all host events empty)) [
        | inl (rebuilt, made) ↦ (
          rebuilt,
          made,
          append_all-IsIntact host events empty rebuilt (empty-IsIntact host) made,
          append_all_stores run_id events empty rebuilt same made
              ∙ ok_inj (sym (clones_of_checked run_id 0 [] [] events s.ordered) ∙ s.cloned),
        )
        | inr (code, refused) ↦ cc (rw refused at accepts)
      ]
