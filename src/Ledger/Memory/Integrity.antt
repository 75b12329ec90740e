-- ===== src/Ledger/Memory/Integrity.antt =====
-- packages/ledger/src/semantic-ledger.ts: the stored runs of a ledger, and what appends do to them.
use mathlib.Core.Path.{subst, subst₂}
use native.Mathlib.Nat.{zero-add}
use amca_core.Common.{
  String, Bool, true, false, some, ◌≡◌, refl, sym, ap, ◌∙◌, inl, inr, List, [], ◌∷◌, ◌++◌, any,
  length, is_blank, arith, Bool-cases, Option-cases, some_inj,
}
use amca_core.Common.Equality.{◌==◌, string_has_eq, str_eq_iff}
use amca_core.Common.Outcome.{Result, ok, err, bind-eq-ok, ok_inj}
use amca_core.Protocol.Json.{Number, number_eq}
use amca_core.Protocol.Host.{Host}
use amca_core.Ledger.Event.{
  Event, Attempt, validate_run_event_shape, clone_run_event, clone_run_events,
}
use amca_core.Ledger.Event.Clone.{clone_of, clone_run_event_lem, clone_of_idem, shape-clone_of}
use amca_core.Ledger.Stream.{has_sequence, check_ordered_event, check_ordered_events}
use amca_core.Ledger.Stream.Snoc.{
  event_ids, sequences, check_ordered_events-snoc, check_ordered_event-clone, clone_run_events-snoc,
}
use amca_core.Ledger.Memory.{
  Ledger, AppendRunEventResult, empty, update, or_empty, append_accepted_event_sync, append_all,
}

abbrev pub is_ok {ℓ} : {E : Type 0} {A : Type ℓ} → Result E A → Bool
is_ok (ok a) = true
is_ok (err e) = false

module _ (host : Host) where
  -- The events of a stored run pass the check of its stream, and are clones.
  pub record IsStored (run_id : String) (events : List Event) : Type 0 where
    pub named : is_blank run_id ≡ false
    pub ordered : check_ordered_events host run_id 0 [] [] events ≡ ok tt
    pub cloned : clone_run_events host events ≡ ok events

  pub record IsIntact (ledger : Ledger) : Type 0 where
    pub ids_kept :
        (run_id : String)
        → or_empty (ledger.event_ids_by_run run_id)
          ≡ event_ids (or_empty (ledger.events_by_run run_id))
    pub stored :
        (run_id : String) (events : List Event)
        → ledger.events_by_run run_id ≡ some events
        → IsStored run_id events

  -- The stored events of a run, one that is not there included.
  abbrev pub run_of : Ledger → String → List Event
  run_of ledger run_id = or_empty (ledger.events_by_run run_id)

  any-sequences :
      (n : Number) (events : List Event)
      → has_sequence (sequences events) n ≡ any (λ e. number_eq e.sequence n) events
  any-sequences n [] = refl
  any-sequences n (e ∷ es) = rw (any-sequences n es)

  -- The guards of an append are those of the stream's check, in another order.
  pub append_guards :
      (event : Event) (ledger : Ledger)
      → IsIntact ledger
      → is_ok (append_accepted_event_sync host event ledger)
        ≡ is_ok (
            check_ordered_event host event.run_id
              (length (run_of ledger event.run_id))
              (event_ids (run_of ledger event.run_id))
              (sequences (run_of ledger event.run_id))
              event)
  unfolding append_accepted_event_sync check_ordered_event
  append_guards event ledger intact =
      rw (intact.ids_kept event.run_id, any-sequences)
        (ground (arith, clone_run_event_lem host event, str_eq_iff event.run_id event.run_id))

  pub ok_unit : (m : Attempt (Unit {0})) → is_ok m ≡ true → m ≡ ok tt
  ok_unit (ok a) h = refl
  ok_unit (err e) h = cc

  -- The ledger after an append that was accepted.
  abbrev pub appended : Event → Ledger → Ledger
  appended event ledger = record {
    events_by_run =
        update ledger.events_by_run event.run_id
          (run_of ledger event.run_id ++ clone_of host event ∷ []);
    event_ids_by_run =
        update ledger.event_ids_by_run event.run_id
          (or_empty (ledger.event_ids_by_run event.run_id) ++ event.event_id ∷ []);
  }

  abbrev pub receipt_of : Event → AppendRunEventResult
  receipt_of event = record {
    run_id = event.run_id;
    event_id = event.event_id;
    sequence = event.sequence;
  }

  -- An accepted append has passed the shape check, and its result and ledger are these.
  pub append_accepted :
      (event : Event) (ledger : Ledger) (result : AppendRunEventResult × Ledger)
      → append_accepted_event_sync host event ledger ≡ ok result
      → (result ≡ (receipt_of event, appended event ledger))
        × (validate_run_event_shape event ≡ ok tt)
  unfolding append_accepted_event_sync
  append_accepted event ledger result h = ground (arith, clone_run_event_lem host event)

  pub event_ids-snoc :
      (es : List Event) (e : Event)
      → event_ids (es ++ clone_of host e ∷ []) ≡ event_ids es ++ e.event_id ∷ []
  event_ids-snoc [] e = refl
  event_ids-snoc (x ∷ es) e = ap (λ ids. x.event_id ∷ ids) (event_ids-snoc es e)

  pub run_of-IsStored :
      (ledger : Ledger) (run_id : String)
      → IsIntact ledger
      → is_blank run_id ≡ false
      → IsStored run_id (run_of ledger run_id)
  unfolding check_ordered_events clone_run_events
  run_of-IsStored ledger run_id intact named = elim (Option-cases (ledger.events_by_run run_id)) [
    | inl absent ↦ rw absent (record { named = named; ordered = refl; cloned = refl })
    | inr (events, present) ↦ rw present (intact.stored run_id events present)
  ]

  pub shape-named :
      (event : Event) → validate_run_event_shape event ≡ ok tt → is_blank event.run_id ≡ false
  unfolding validate_run_event_shape
  shape-named event h = ground arith

  pub clone_of_clone :
      (event : Event)
      → validate_run_event_shape event ≡ ok tt
      → clone_run_event host (clone_of host event) ≡ ok (clone_of host event)
  clone_of_clone event shape =
      clone_run_event_lem host (clone_of host event) (shape-clone_of host event ∙ shape)
      ∙ ap ok (clone_of_idem host event)

  snoc-IsStored :
      (event : Event) (events : List Event)
      → IsStored event.run_id events
      → validate_run_event_shape event ≡ ok tt
      → is_ok (
          check_ordered_event host event.run_id
            (length events)
            (event_ids events)
            (sequences events)
            event)
        ≡ true
      → IsStored event.run_id (events ++ clone_of host event ∷ [])
  snoc-IsStored event events s shape checked = record {
    named = s.named;
    ordered =
        rw
          (
            check_ordered_events-snoc host event.run_id 0 [] [] events,
            s.ordered,
            check_ordered_event-clone,
            zero-add,
          )
          (ok_unit _ checked);
    cloned = rw (clone_run_events-snoc host events, s.cloned, clone_of_clone event shape);
  }

  appended-IsIntact :
      (event : Event) (ledger : Ledger)
      → IsIntact ledger
      → IsStored event.run_id (run_of ledger event.run_id ++ clone_of host event ∷ [])
      → IsIntact (appended event ledger)
  appended-IsIntact event ledger intact new = record {
    ids_kept = λ r. elim (Bool-cases (event.run_id == r)) [
      | inl same ↦
          rw (same, intact.ids_kept event.run_id)
            (sym (event_ids-snoc (run_of ledger event.run_id) event))
      | inr apart ↦ rw apart (intact.ids_kept r)
    ];
    stored = λ r events h. elim (Bool-cases (event.run_id == r)) [
      | inl same ↦
          subst₂ IsStored ((str_eq_iff event.run_id r).0 same) (some_inj (rw same at h)) new
      | inr apart ↦ intact.stored r events (rw apart at h)
    ];
  }

  -- Every accepted append leaves an intact ledger intact.
  pub append-IsIntact :
      (event : Event) (ledger : Ledger) (result : AppendRunEventResult × Ledger)
      → IsIntact ledger
      → append_accepted_event_sync host event ledger ≡ ok result
      → IsIntact result.1
  append-IsIntact event ledger result intact h =
      let (e, shape) = append_accepted event ledger result h in
      let new =
        snoc-IsStored event (run_of ledger event.run_id)
          (run_of-IsStored ledger event.run_id intact (shape-named event shape)) shape
          (sym (append_guards event ledger intact) ∙ ap is_ok h) in
      rw e (appended-IsIntact event ledger intact new)

  -- Where a sequence of events is accepted, one after the other, into an intact ledger, the final
  -- ledger is intact: it keeps the id set of each run, and the stored events of each run pass the check of
  -- a stream and are their own clones.
  pub append_all-IsIntact :
      (events : List Event) (ledger final : Ledger)
      → IsIntact ledger
      → append_all host events ledger ≡ ok final
      → IsIntact final
  unfolding append_all
  append_all-IsIntact [] ledger final intact h = subst IsIntact (ok_inj h) intact
  append_all-IsIntact (event ∷ events) ledger final intact h =
      let (result, accepted, rest) =
        bind-eq-ok (append_accepted_event_sync host event ledger) _ h in
      append_all-IsIntact events result.1 final
        (append-IsIntact event ledger result intact accepted) rest

  pub empty-IsIntact : IsIntact empty
  empty-IsIntact = record { ids_kept = λ r. refl; stored = λ r events h. cc }
