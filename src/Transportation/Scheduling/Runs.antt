-- ===== src/Transportation/Scheduling/Runs.antt =====
-- The life of a `DeliveryScheduler`: the calls of its methods, in any order.
use supply_chain_execution.Common.{List, ℕ, ◌≡◌}
use supply_chain_execution.Common.Int.{ℤ}
use supply_chain_execution.Persistence.Session.{Env}
use supply_chain_execution.Transportation.Scheduling.{Calendar, Scheduler, generate_slots}
use supply_chain_execution.Transportation.Scheduling.Docks.{
  AllBookable, generate_slots-AllBookable, schedule_shipments-AllBookable,
}
use supply_chain_execution.Transportation.Scheduling.Methods.{reschedule, schedule_shipments}
use supply_chain_execution.Transportation.Scheduling.Rebooking.{reschedule-AllBookable}

module _ (env : Env) (calendar : Calendar) where
  pub data Call : Scheduler → Scheduler → Type 0 where
    generates :
        (w : ℕ) (first : ℤ) (days : ℕ) (s : Scheduler)
        → Call s (generate_slots env calendar w first days s).1
    schedules :
        (w : ℕ) (ids : List ℕ) (s : Scheduler) → Call s (schedule_shipments env calendar w ids s).1
    reschedules : (shipment slot : ℕ) (s : Scheduler) → Call s (reschedule shipment slot s).1

  pub data Runs (s : Scheduler) : Scheduler → Type 0 where
    begins : Runs s s
    calls : {t u : Scheduler} → Runs s t → Call t u → Runs s u

  module _ (unique : (i j : ℕ) → env.uuid4 i ≡ env.uuid4 j → i ≡ j) where
    Call-AllBookable : {s t : Scheduler} → Call s t → AllBookable s.slots → AllBookable t.slots
    Call-AllBookable (generates w first days s) h =
        let (slots, s', run, b, all_bookable) =
          generate_slots-AllBookable env calendar unique w first days s h in
        rw run all_bookable
    Call-AllBookable (schedules w ids s) h =
        schedule_shipments-AllBookable env calendar unique w ids s h
    Call-AllBookable (reschedules shipment slot s) h = reschedule-AllBookable shipment slot s h

    -- Where UUIDs do not repeat: whatever calls a scheduler has had since a state in which it is
    -- so, the slots of a warehouse are different, and none is booked over its capacity.
    pub Runs-AllBookable : {s t : Scheduler} → Runs s t → AllBookable s.slots → AllBookable t.slots
    Runs-AllBookable begins h = h
    Runs-AllBookable (calls r c) h = Call-AllBookable c (Runs-AllBookable r h)
