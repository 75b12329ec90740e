-- ===== src/Ledger/Stream/Snoc.antt =====
-- packages/ledger/src/semantic-ledger.ts: the check of a stream with one more event at its end.
use mathlib.Core.List.{append_assoc, append-nil}
use native.Mathlib.Nat.{add-zero}
use amca_core.Common.{ℕ, suc, ◌+◌, String, ◌≡◌, refl, List, [], ◌∷◌, ◌++◌, length, arith}
use amca_core.Common.Outcome.{ok, ◌>>=◌, ◌>>◌, then_assoc, then_done, regroup}
use amca_core.Protocol.Json.{Number}
use amca_core.Protocol.Host.{Host}
use amca_core.Ledger.Event.{Event, clone_run_event, clone_run_events}
use amca_core.Ledger.Event.Clone.{clone_of, shape-clone_of, hash-clone_of}
use amca_core.Ledger.Stream.{check_ordered_event, check_ordered_events}

abbrev pub event_ids : List Event → List String
event_ids [] = []
event_ids (e ∷ es) = e.event_id ∷ event_ids es

abbrev pub sequences : List Event → List Number
sequences [] = []
sequences (e ∷ es) = e.sequence ∷ sequences es

index_shift : (index : ℕ) (es : List Event) → index + 1 + length es ≡ index + suc (length es)
index_shift index es = omega arith

module _ (host : Host) (run_id : String) where
  pub check_ordered_events-snoc :
      (index : ℕ) (ids : List String) (ns : List Number) (events : List Event) (event : Event)
      → check_ordered_events host run_id index ids ns (events ++ event ∷ []) ≡ (
          check_ordered_events host run_id index ids ns events
          >> check_ordered_event host run_id
              (index + length events)
              (ids ++ event_ids events)
              (ns ++ sequences events)
              event)
  unfolding check_ordered_events
  check_ordered_events-snoc index ids ns [] event =
      rw (add-zero, append-nil, append-nil)
        (then_done (check_ordered_event host run_id index ids ns event))
  check_ordered_events-snoc index ids ns (e ∷ es) event =
      rw
        (
          check_ordered_events-snoc (index + 1) (ids ++ e.event_id ∷ []) (ns ++ e.sequence ∷ []) es
              event,
          append_assoc ids (e.event_id ∷ []) (event_ids es),
          append_assoc ns (e.sequence ∷ []) (sequences es),
          index_shift index es,
        )
        (then_assoc (check_ordered_event host run_id index ids ns e) _ _)

  -- The check of a clone is the check of the event.
  pub check_ordered_event-clone :
      (index : ℕ) (ids : List String) (ns : List Number) (event : Event)
      → check_ordered_event host run_id index ids ns (clone_of host event)
        ≡ check_ordered_event host run_id index ids ns event
  unfolding check_ordered_event
  check_ordered_event-clone index ids ns event = rw (shape-clone_of, hash-clone_of)

pub clone_run_events-snoc :
    (host : Host) (events : List Event) (event : Event)
    → clone_run_events host (events ++ event ∷ []) ≡ (do
      clones ← clone_run_events host events
      clone ← clone_run_event host event
      ok (clones ++ clone ∷ []))
unfolding clone_run_events
clone_run_events-snoc host [] event = refl
clone_run_events-snoc host (e ∷ es) event =
    rw (clone_run_events-snoc host es event)
      (regroup (clone_run_event host e) (clone_run_events host es) (clone_run_event host event))
