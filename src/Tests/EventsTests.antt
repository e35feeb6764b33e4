-- ===== src/Tests/EventsTests.antt =====
-- The event bus at concrete inputs.
use mathlib.Core.Option
use supply_chain_execution.Common.{
  All, [], filter, insert_sorted, length, none, refl, some, sort_into, sorted, suc, true, ◌*◌, ◌+◌,
  ◌∷◌, ◌≡◌, ◌≤◌,
}
use supply_chain_execution.Common.Int.{pos, sum_of, ◌+ℤ◌}
use supply_chain_execution.Core.Effect.{ok, raised}
use supply_chain_execution.Core.Exceptions.{Error, foreign}
use supply_chain_execution.Core.Types.{EventType}
use supply_chain_execution.Events.Bus.{
  DomainEventPayload, Handler, RedisClient, Registry, dispatch, every, handlers_for, new_event,
  of_type, payload_of, process_pending, publish, registered, run_handlers,
}
use supply_chain_execution.Events.Bus.Dispatch.{Settled, dispatch-outcome}
use supply_chain_execution.Events.Bus.Growth.{after_dispatches, handlers_for-growth}
use supply_chain_execution.Events.Bus.Pending.{IsOver, process_pending-settles, processed_among}
use supply_chain_execution.Events.Bus.Settling.{AreQuiet, event_status}
use supply_chain_execution.Events.Ordering.{get_expected_next_sequence, validate_aggregate}
use supply_chain_execution.Events.Ordering.Publish.{
  IsSequenced, publish-IsSequenced, validate_aggregate-IsSequenced,
}
use supply_chain_execution.Events.Replay.{
  Projection, Projections, ReplayResult, from_sequence_on, project, project_all,
  rebuild_inventory_projection, register_projection, replay_aggregate,
}
use supply_chain_execution.Events.Replay.Network.{delta_of, rebuild_inventory_projection-on_hand}
use supply_chain_execution.Events.Replay.Outcome.{outcomes, projected, replay_aggregate-IsSequenced}
use supply_chain_execution.Persistence.Models.Events.{
  DomainEvent, Json, ProcessingStatus, payload_get,
}
use supply_chain_execution.Persistence.Queries.Events.{
  get_next_sequence, list_for_aggregate, list_pending,
}
use supply_chain_execution.Persistence.Session.{Session}
use supply_chain_execution.Persistence.Table.{select}
use supply_chain_execution.Tests.Samples.{empty_session, env, stored_row}

abbrev event : DomainEventPayload
event = record {
  event_type = EventType.po_submitted;
  aggregate_type = "order";
  aggregate_id = 5;
  payload = [];
  occurred_at = pos 1;
}

abbrev first_event : DomainEvent
first_event = new_event 40 (pos 1) event

abbrev logged : Session
logged = record empty_session { events = stored_row first_event ∷ [] }

logged-IsSequenced : IsSequenced "order" 5 logged
unfolding select
logged-IsSequenced = record { flushed = (refl, tt); numbered = (refl, tt) }

abbrev refusing : RedisClient
refusing e = raised (foreign 1)

publish-IsSequenced_example : IsSequenced "order" 5 (publish env (some refusing) event logged).1
publish-IsSequenced_example =
    publish-IsSequenced "order" 5 event logged logged-IsSequenced env (some refusing)

validate_aggregate-IsSequenced_example :
    (validate_aggregate "order" 5 logged ≡ [])
    × (get_expected_next_sequence "order" 5 logged ≡ get_next_sequence "order" 5 logged)
validate_aggregate-IsSequenced_example =
    validate_aggregate-IsSequenced "order" 5 logged logged-IsSequenced

abbrev quiet : Handler
quiet e s = (ok tt, s)

abbrev broken : Handler
broken e s = (raised (foreign 2), s)

abbrev handlers : Registry
handlers = (of_type EventType.po_submitted, quiet ∷ []) ∷ (every, broken ∷ []) ∷ []

-- The second handler raises, and neither touches the events.
handlers-AreQuiet : AreQuiet handlers
handlers-AreQuiet = ((λ e s. refl, tt), ((λ e s. refl, tt), tt))

process_pending-settles_example :
    (registry' : Registry) × (s' : Session) × (process_pending env handlers 50 logged
      ≡ (ok (registry', pos (processed_among (list_pending 50 logged) s')), s'))
    × All (λ (e : DomainEvent). IsOver (event_status e.id s'.events)) (list_pending 50 logged)
    × (length (list_pending 50 logged) ≤ 50)
process_pending-settles_example =
    process_pending-settles env handlers 50 logged handlers-AreQuiet (tt, tt)

dispatch-outcome_example :
    ((run_handlers (handlers_for EventType.po_submitted handlers) (payload_of first_event) logged).0
        ≡ ok tt
      → ((dispatch env handlers first_event logged).0 ≡ ok tt)
        × Settled 40 ProcessingStatus.processed (dispatch env handlers first_event logged).1)
    × ((x : Error)
        → (run_handlers
            (handlers_for EventType.po_submitted handlers)
            (payload_of first_event)
            logged).0
          ≡ raised x
        → ((dispatch env handlers first_event logged).0 ≡ raised x)
          × Settled 40 ProcessingStatus.failed (dispatch env handlers first_event logged).1)
dispatch-outcome_example = dispatch-outcome env handlers first_event logged

handlers_for-growth_example :
    length
      (handlers_for EventType.po_submitted (after_dispatches 3 EventType.po_submitted handlers))
    ≡ 1 + suc 3 * 1
unfolding registered
handlers_for-growth_example =
    handlers_for-growth EventType.po_submitted (quiet ∷ []) (broken ∷ []) handlers 3 refl refl

abbrev flaky : Projections
flaky = register_projection EventType.po_submitted (λ e s. (raised (foreign 3), s)) (λ k. none)

replay_aggregate-IsSequenced_example :
    (r : ReplayResult) × (s' : Session) × (replay_aggregate env flaky "order" 5 (pos 1) logged
      ≡ (ok r, s'))
    × (r.completed ≡ true)
    × (outcomes r
        ≡ projected flaky (filter (from_sequence_on (pos 1)) (list_for_aggregate "order" 5 logged)))
replay_aggregate-IsSequenced_example =
    replay_aggregate-IsSequenced env flaky "order" 5 (pos 1) logged logged-IsSequenced

-- An adjustment of SKU 7 in warehouse 2.
abbrev adjustment : DomainEventPayload
adjustment = record {
  event_type = EventType.inventory_adjusted;
  aggregate_type = "inventory";
  aggregate_id = 7;
  payload = ("warehouse_id", Json.uuid 2) ∷ ("quantity_delta", Json.number (pos 6)) ∷ [];
  occurred_at = pos 1;
}

abbrev adjusted : Session
adjusted = record empty_session { events = stored_row (new_event 41 (pos 1) adjustment) ∷ [] }

abbrev six : Projection
six = record { on_hand = pos 6; reserved = pos 0; allocated = pos 0 }

six_rebuilt : rebuild_inventory_projection 1 7 adjusted ≡ (ok (six, 1), adjusted)
unfolding rebuild_inventory_projection list_for_aggregate select sorted sort_into insert_sorted
    project_all project payload_get Option.bind ◌+ℤ◌
six_rebuilt = refl

rebuild_inventory_projection-on_hand_example :
    six.on_hand ≡ sum_of delta_of (list_for_aggregate "inventory" 7 adjusted)
rebuild_inventory_projection-on_hand_example =
    rebuild_inventory_projection-on_hand 1 7 six 1 adjusted adjusted six_rebuilt
