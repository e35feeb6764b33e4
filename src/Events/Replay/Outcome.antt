-- ===== src/Events/Replay/Outcome.antt =====
-- What `replay_aggregate` (events/replay.py) counts.
use supply_chain_execution.Common.{
  List, Option, String, [], arith, filter, length, length-append, none, refl, some, true, ℕ, ◌+◌,
  ◌∷◌, ◌≡◌,
}
use supply_chain_execution.Common.Int.{ℤ}
use supply_chain_execution.Core.Effect.{Result, for_each, ok, pure, raised, recover, resume}
use supply_chain_execution.Events.Ordering.{validate_and_raise}
use supply_chain_execution.Events.Ordering.Publish.{IsSequenced, validate_aggregate-IsSequenced}
use supply_chain_execution.Events.Replay.{
  ProjectionHandler, Projections, ReplayResult, failed_one, from_sequence_on, nothing_replayed,
  of_event, replay_aggregate, replay_event, replay_events, replay_from, replayed_one,
}
use supply_chain_execution.Persistence.Models.Events.{DomainEvent}
use supply_chain_execution.Persistence.Queries.Events.{list_for_aggregate}
use supply_chain_execution.Persistence.Session.{Env, Session}

abbrev pub has_handler : Option ProjectionHandler → ℕ
has_handler none = 0
has_handler (some _) = 1

-- The number of events whose type has a projection.
abbrev pub projected : Projections → List DomainEvent → ℕ
projected projections [] = 0
projected projections (e ∷ es) = has_handler (projections e.event_type) + projected projections es

abbrev pub outcomes : ReplayResult → ℕ
outcomes r = r.events_replayed + length r.errors

replay_event-returns :
    (handler : Option ProjectionHandler) (e : DomainEvent) (r : ReplayResult) (s : Session)
    → (r' : ReplayResult) × (s' : Session) × (replay_event handler e r s ≡ (ok r', s'))
      × (outcomes r' ≡ outcomes r + has_handler handler)
unfolding replay_event
replay_event-returns none e r s = (r, s, refl, omega arith)
replay_event-returns (some handler) e r s = go (handler e s)
  where
    go :
        (x : Result (Unit {0}) × Session)
        → (r' : ReplayResult) × (s' : Session) × (recover
              (resume x.0 (λ _. pure (replayed_one r)) x.1).0
              (λ y. pure (failed_one e.id r))
              (resume x.0 (λ (_ : Unit {0}). pure (replayed_one r)) x.1).1
            ≡ (ok r', s'))
          × (outcomes r' ≡ outcomes r + 1)
    go (ok tt, s') = (replayed_one r, s', refl, omega arith)
    go (raised y, s') =
        (failed_one e.id r, s', refl, omega (arith, length-append r.errors (of_event e.id ∷ [])))

replay_events-returns :
    (projections : Projections) (es : List DomainEvent) (r : ReplayResult) (s : Session)
    → (r' : ReplayResult) × (s' : Session) × (replay_events projections es r s ≡ (ok r', s'))
      × (outcomes r' ≡ outcomes r + projected projections es)
unfolding replay_events for_each
replay_events-returns projections [] r s = (r, s, refl, omega arith)
replay_events-returns projections (e ∷ es) r s =
    let (r₁, s₁, one, c) = replay_event-returns (projections e.event_type) e r s in
    let (r₂, s₂, rest, d) = replay_events-returns projections es r₁ s₁ in
    (r₂, s₂, rw one rest, omega (arith, c, d))

IsSequenced-drawn :
    (kind : String) (id : ℕ) (s : Session)
    → IsSequenced kind id s
    → IsSequenced kind id (record s { draws = s.draws + 1 })
IsSequenced-drawn kind id s h = record { flushed = h.flushed; numbered = h.numbered }

-- On a log numbered from 1 without gaps, `replay_aggregate` returns a completed result whatever
-- the projections do, and every event from the given number on whose type has a projection is
-- either counted as replayed or noted as an error, and no other is.
pub replay_aggregate-IsSequenced :
    (env : Env) (projections : Projections) (kind : String) (id : ℕ) (n : ℤ) (s : Session)
    → IsSequenced kind id s
    → (r : ReplayResult) × (s' : Session) × (replay_aggregate env projections kind id n s
        ≡ (ok r, s'))
      × (r.completed ≡ true)
      × (outcomes r
          ≡ projected projections (filter (from_sequence_on n) (list_for_aggregate kind id s)))
unfolding replay_aggregate replay_from validate_and_raise list_for_aggregate
replay_aggregate-IsSequenced env projections kind id n s h =
    let s₁ : Session = record s { draws = s.draws + 1 } in
    let (no_gaps, _) = validate_aggregate-IsSequenced kind id s₁ (IsSequenced-drawn kind id s h) in
    let es = filter (from_sequence_on n) (list_for_aggregate kind id s) in
    let (r, s₂, e, c) = replay_events-returns projections es nothing_replayed s₁ in
    (
      record r { completed = true },
      record s₂ { draws = s₂.draws + 1 },
      rw (no_gaps, e) refl,
      refl,
      omega (arith, c),
    )
