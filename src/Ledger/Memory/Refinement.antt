-- ===== src/Ledger/Memory/Refinement.antt =====
-- packages/ledger/src/semantic-ledger.ts: an append beside the validation of a stream.
use native.Mathlib.Nat.{zero-add}
use amca_core.Common.{
  ℕ, String, false, some, ◌≡◌, refl, inl, inr, List, [], ◌∷◌, ◌++◌, length, is_blank, arith,
  Bool-cases,
}
use amca_core.Common.Equality.{string_has_eq}
use amca_core.Common.Outcome.{ok, err, ◌>>◌}
use amca_core.Protocol.Json.{Number}
use amca_core.Protocol.Host.{Host}
use amca_core.Ledger.Error.{empty_run_id}
use amca_core.Ledger.Event.{
  Event, Attempt, validate_run_event_shape, assert_non_empty_id, clone_run_events,
}
use amca_core.Ledger.Event.Clone.{clone_of, clone_run_event_lem}
use amca_core.Ledger.Stream.{check_ordered_event, check_ordered_events, validate_ordered_run_events}
use amca_core.Ledger.Stream.Snoc.{
  event_ids, sequences, check_ordered_events-snoc, clone_run_events-snoc,
}
use amca_core.Ledger.Memory.{Ledger, append_accepted_event_sync}
use amca_core.Ledger.Memory.Integrity.{
  is_ok, IsStored, IsIntact, run_of, append_guards, ok_unit, run_of-IsStored, shape-named,
}

module _ (host : Host) where
  validate-snoc :
      (events : List Event) (event : Event) (run_id : String)
      → validate_ordered_run_events host (events ++ event ∷ []) (some run_id) ≡ (do
        assert_non_empty_id run_id empty_run_id
        check_ordered_events host run_id 0 [] [] (events ++ event ∷ [])
        clone_run_events host (events ++ event ∷ []))
  unfolding validate_ordered_run_events
  validate-snoc [] event run_id = refl
  validate-snoc (e ∷ es) event run_id = refl

  pub checked_shape :
      (event : Event) (run_id : String) (index : ℕ) (ids : List String) (ns : List Number)
      → check_ordered_event host run_id index ids ns event ≡ ok tt
      → validate_run_event_shape event ≡ ok tt
  unfolding check_ordered_event
  checked_shape event run_id index ids ns h = ground arith

  clone_ok :
      (event : Event) (events : List Event)
      → IsStored host event.run_id events
      → validate_run_event_shape event ≡ ok tt
      → clone_run_events host (events ++ event ∷ []) ≡ ok (events ++ clone_of host event ∷ [])
  clone_ok event events s shape =
      rw (clone_run_events-snoc host events event, s.cloned, clone_run_event_lem host event shape)

  fails_inside :
      {A : Type 0} (a b c : Attempt (Unit {0})) (d : Attempt A)
      → is_ok c ≡ false
      → is_ok c ≡ is_ok (a >> ((b >> c) >> d))
  fails_inside (ok a) (ok b) (ok c) d h = cc
  fails_inside (ok a) (ok b) (err c) d h = refl
  fails_inside (ok a) (err b) c d h = h
  fails_inside (err a) b c d h = h

  stream_verdict :
      (event : Event) (events : List Event)
      → (is_blank event.run_id ≡ false → IsStored host event.run_id events)
      → let checked =
          check_ordered_event host event.run_id
            (length events)
            (event_ids events)
            (sequences events)
            event in
        is_ok checked
        ≡ is_ok (do
          assert_non_empty_id event.run_id empty_run_id
          check_ordered_events host event.run_id 0 [] [] events >> checked
          clone_run_events host (events ++ event ∷ []))
  stream_verdict event events stored =
      let checked =
        check_ordered_event host event.run_id (length events) (event_ids events) (sequences events)
          event in
      elim (Bool-cases (is_ok checked)) [
        | inl good ↦
            let passed = ok_unit host checked good in
            let shape = checked_shape event event.run_id _ _ _ passed in
            let s = stored (shape-named host event shape) in
            rw (passed, s.ordered, clone_ok event events s shape)
              (unfold assert_non_empty_id in rw s.named)
        | inr bad ↦ fails_inside _ _ checked _ bad
      ]

  -- An intact ledger accepts an event exactly when the stored events of its run, with the event
  -- behind them, validate as the stream of that run.
  pub append_iff_validates :
      (event : Event) (ledger : Ledger)
      → IsIntact host ledger
      → is_ok (append_accepted_event_sync host event ledger)
        ≡ is_ok (
            validate_ordered_run_events host
              (run_of host ledger event.run_id ++ event ∷ [])
              (some event.run_id))
  append_iff_validates event ledger intact =
      rw
        (
          append_guards host event ledger intact,
          validate-snoc (run_of host ledger event.run_id) event,
          check_ordered_events-snoc host event.run_id 0 [] [] (run_of host ledger event.run_id)
              event,
          zero-add,
        )
        (stream_verdict event (run_of host ledger event.run_id)
          (run_of-IsStored host ledger event.run_id intact))
