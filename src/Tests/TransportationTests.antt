-- ===== src/Tests/TransportationTests.antt =====
-- Dock slots and consolidation at concrete inputs.
use supply_chain_execution.Common.{
  All, Option, [], arith, count_of, length, refl, some, ℕ, ◌+◌, ◌∷◌, ◌≡◌,
}
use supply_chain_execution.Common.Int.{pos, ◌+ℤ◌}
use supply_chain_execution.Core.Effect.{ok}
use supply_chain_execution.Persistence.Queries.Transport.{
  find_shipment, list_consolidation_candidates, put_shipment,
}
use supply_chain_execution.Persistence.Session.{Session}
use supply_chain_execution.Persistence.Table.{get, put, select}
use supply_chain_execution.Tests.Samples.{env, loaded, shipment_of}
use supply_chain_execution.Transportation.Consolidation.{ConsolidationResult, consolidate_window}
use supply_chain_execution.Transportation.Consolidation.Groups.{IsBounded, members, savings}
use supply_chain_execution.Transportation.Consolidation.Members.{consolidate_window-groups, has_id}
use supply_chain_execution.Transportation.Scheduling.{
  Calendar, DeliverySchedule, DeliverySlot, Scheduler, SchedulingResult, find_best_slot, morning,
  new_slot, no_slot, pick_slot,
}
use supply_chain_execution.Transportation.Scheduling.Counter.{
  left_out, schedule_batches, schedule_batches-refines,
}
use supply_chain_execution.Transportation.Scheduling.Docks.{AllBookable}
use supply_chain_execution.Transportation.Scheduling.Methods.{
  book, ensure_slots, place_shipment, reschedule, schedule_each, schedule_for, schedule_found,
  schedule_into, schedule_shipments,
}
use supply_chain_execution.Transportation.Scheduling.Rebooking.{
  IsRebooked, reschedule-outcome, schedule_shipments-room,
}
use supply_chain_execution.Transportation.Scheduling.Runs.{
  Runs-AllBookable, begins, calls, schedules,
}

abbrev calendar : Calendar
calendar = record { weekday = λ t. 2; at_eight = λ t. t }

abbrev small_slot : DeliverySlot
small_slot = record (new_slot 90 1 morning (pos 7)) { capacity = 1 }

abbrev one_dock : Scheduler
one_dock = record { session = loaded; slots = (1, small_slot ∷ []) ∷ [] }

abbrev no_docks : Scheduler
no_docks = record { session = loaded; slots = [] }

distinct_uuids : (i j : ℕ) → env.uuid4 i ≡ env.uuid4 j → i ≡ j
distinct_uuids i j e = omega (arith, e)

-- The second shipment finds no room.
one_left :
    (schedule_shipments env calendar 1 (50 ∷ 51 ∷ []) one_dock).0
    ≡ ok (record {
      scheduled = schedule_for 50 small_slot (some 1) ∷ [];
      unscheduled = 51 ∷ [];
      conflicts = no_slot 51 ∷ [];
    })
unfolding schedule_shipments ensure_slots schedule_into schedule_each schedule_found find_shipment
    get place_shipment find_best_slot pick_slot book put_shipment put
one_left = refl

Runs-AllBookable_example :
    AllBookable (schedule_shipments env calendar 1 (50 ∷ []) no_docks).1.slots
Runs-AllBookable_example =
    Runs-AllBookable env calendar distinct_uuids (calls begins (schedules 1 (50 ∷ []) no_docks)) tt

schedule_shipments-room_example :
    (result : SchedulingResult) × (s' : Scheduler) × (schedule_shipments env calendar 1
        (50 ∷ 51 ∷ [])
        one_dock
      ≡ (ok result, s'))
    × (length result.unscheduled ≡ 1)
    × (length result.scheduled + length result.unscheduled ≡ 2)
unfolding find_shipment get
schedule_shipments-room_example =
    schedule_shipments-room env calendar 1 (50 ∷ 51 ∷ []) (small_slot ∷ []) one_dock refl
      ((refl, tt), (omega arith, tt)) ((shipment_of 50, refl), ((shipment_of 51, refl), tt))

-- The first call takes the one place, and the second finds none.
schedule_batches-refines_example :
    (s' : Scheduler) × (schedule_batches env calendar 1 ((50 ∷ []) ∷ (51 ∷ []) ∷ []) one_dock
      ≡ (ok (0 ∷ 1 ∷ []), s'))
unfolding find_shipment get left_out
schedule_batches-refines_example =
    schedule_batches-refines env calendar 1 1 ((50 ∷ []) ∷ (51 ∷ []) ∷ []) one_dock
      (record {
        slots = small_slot ∷ [];
        found = refl;
        bookable = ((refl, tt), (omega arith, tt));
        free = refl;
      })
      (((shipment_of 50, refl), tt), (((shipment_of 51, refl), tt), tt))

reschedule-outcome_example :
    (result : Option DeliverySchedule) × (s' : Scheduler) × (reschedule 50 90 one_dock
      ≡ (ok result, s'))
    × (s'.session ≡ loaded)
    × IsRebooked 50 90 one_dock (result, s'.slots)
reschedule-outcome_example = reschedule-outcome 50 90 one_dock

consolidate_window-groups_example :
    (r : ConsolidationResult) × (s' : Session) × (consolidate_window env 4 1 (some (pos 0)) loaded
      ≡ (ok r, s'))
    × ((a : ℕ) → members a r.groups ≡ count_of (has_id a) (shipment_of 50 ∷ shipment_of 51 ∷ []))
    × All IsBounded r.groups
    × (r.shipments_consolidated ≡ 2)
    × (r.total_savings ≡ savings r.groups)
unfolding list_consolidation_candidates select ◌+ℤ◌
consolidate_window-groups_example = consolidate_window-groups env 4 1 (some (pos 0)) loaded
