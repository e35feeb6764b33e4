-- ===== src/Transportation/Scheduling/Methods.antt =====
-- src/nexusops/domain/transportation/scheduling.py: `schedule_shipments` and `reschedule`.
-- The slots of the warehouse, which the loop assigns to, and the result so far.
use supply_chain_execution.Common.{
  List, Option, [], if◌then◌else◌, none, not, some, ℕ, ◌&&◌, ◌*◌, ◌++◌, ◌+◌, ◌==◌, ◌∷◌,
}
use supply_chain_execution.Common.Int.{pos, ◌+ℤ◌}
use supply_chain_execution.Core.Effect.{Action, gets, ok, pure, ◌>>=◌}
use supply_chain_execution.Persistence.Models.Transport.{Shipment}
use supply_chain_execution.Persistence.Queries.Transport.{find_shipment, put_shipment}
use supply_chain_execution.Persistence.Session.{Env, Session, draw_now}
use supply_chain_execution.Transportation.Scheduling.{
  Calendar, Conflict, DeliverySchedule, DeliverySlot, Scheduler, SchedulingResult, find_best_slot,
  find_slots, generate_slots, hour, ids_of, in_session, is_full, no_slot, not_known, open_slots,
  referred, set_slots, slot_duration_hours,
}

pub record Round : Type 0 where
  pub slots : List DeliverySlot
  pub result : SchedulingResult

-- `slot.booked += 1`
unfoldable pub book : ℕ → List DeliverySlot → List DeliverySlot
book id [] = []
book id (x ∷ xs) =
    if x.slot_id == id then record x { booked = x.booked + 1 } ∷ xs else x ∷ book id xs

abbrev pub leave : ℕ → Conflict → Round → Round
leave id reason r = record r {
  result = record (r.result) {
    unscheduled = r.result.unscheduled ++ id ∷ [];
    conflicts = r.result.conflicts ++ reason ∷ [];
  };
}

abbrev pub schedule_for : ℕ → DeliverySlot → Option ℕ → DeliverySchedule
schedule_for id slot door = record {
  shipment_id = id;
  slot = slot.slot_id;
  estimated_arrival = slot.date;
  estimated_departure = slot.date +ℤ pos (slot_duration_hours * hour);
  dock_door = door;
}

abbrev pub accept : ℕ → DeliverySlot → Round → Round
accept id slot r = record r {
  slots = book slot.slot_id r.slots;
  result = record (r.result) {
    scheduled = r.result.scheduled ++ schedule_for id slot (some (slot.booked + 1)) ∷ [];
  };
}

-- The loop's body once the shipment is found.
unfoldable pub place_shipment :
    Shipment → ℕ → Option DeliverySlot → Round → Session → Round × Session
place_shipment x id none r s = (leave id (no_slot id) r, s)
place_shipment x id (some slot) r s =
    (accept id slot r, (put_shipment (record x { scheduled_delivery = some slot.date }) s).1)

unfoldable pub schedule_found : List ℕ → ℕ → Option Shipment → Round → Session → Round × Session
schedule_found open_ids id none r s = (leave id (not_known id) r, s)
schedule_found open_ids id (some x) r s =
    place_shipment x id (find_best_slot (referred open_ids r.slots) x.scheduled_delivery) r s

-- The loop of `schedule_shipments`. Nothing in it raises.
unfoldable pub schedule_each : List ℕ → List ℕ → Round → Session → Round × Session
schedule_each open_ids [] r s = (r, s)
schedule_each open_ids (id ∷ ids) r s =
    let (r', s') = schedule_found open_ids id (find_shipment id s) r s in
    schedule_each open_ids ids r' s'

abbrev pub no_schedule : SchedulingResult
no_schedule = record { scheduled = []; unscheduled = []; conflicts = [] }

-- The loop on the slots of the warehouse, written back where they are kept.
unfoldable pub schedule_into : ℕ → List ℕ → List DeliverySlot → Action Scheduler SchedulingResult
schedule_into w ids slots s =
    let (r, session') =
      schedule_each (ids_of (open_slots slots)) ids (record { slots = slots; result = no_schedule })
        s.session in
    (ok r.result, record { session = session'; slots = set_slots w r.slots s.slots })

-- `if warehouse_id not in self._slots`, with the default of seven days.
unfoldable pub ensure_slots :
    Env → Calendar → ℕ → Option (List DeliverySlot) → Action Scheduler (List DeliverySlot)
ensure_slots env calendar w none = do
  now ← in_session (draw_now env)
  generate_slots env calendar w now 7
ensure_slots env calendar w (some slots) = pure slots

unfoldable pub schedule_shipments : Env → Calendar → ℕ → List ℕ → Action Scheduler SchedulingResult
schedule_shipments env calendar w ids = do
  found ← gets (λ (s : Scheduler). find_slots w s.slots)
  slots ← ensure_slots env calendar w found
  schedule_into w ids slots

abbrev pub after :
    DeliverySlot
    → Option (DeliverySlot × List DeliverySlot)
    → Option (DeliverySlot × List DeliverySlot)
after y none = none
after y (some (x, slots)) = some (x, y ∷ slots)

-- The first slot with this id that has room, booked.
unfoldable pub take_slot : ℕ → List DeliverySlot → Option (DeliverySlot × List DeliverySlot)
take_slot id [] = none
take_slot id (x ∷ xs) =
    if (x.slot_id == id) && not (is_full x)
    then some (x, record x { booked = x.booked + 1 } ∷ xs)
    else after x (take_slot id xs)

abbrev pub Dictionary : Type 0
Dictionary = List (ℕ × List DeliverySlot)

abbrev pub in_front :
    ℕ × List DeliverySlot → Option (DeliverySlot × Dictionary) → Option (DeliverySlot × Dictionary)
in_front entry none = none
in_front entry (some (x, d)) = some (x, entry ∷ d)

unfoldable pub take_anywhere : ℕ → Dictionary → Option (DeliverySlot × Dictionary)
take_anywhere id [] = none
take_anywhere id ((w, slots) ∷ rest) = elim (take_slot id slots) [
  | some (x, slots') ↦ some (x, (w, slots') ∷ rest)
  | none ↦ in_front (w, slots) (take_anywhere id rest)
]

-- The result of `reschedule`, once its loops are over.
unfoldable pub rebook :
    ℕ
    → Option (DeliverySlot × List (ℕ × List DeliverySlot))
    → Action Scheduler (Option DeliverySchedule)
rebook shipment none s = (ok none, s)
rebook shipment (some (x, d)) s = (ok (some (schedule_for shipment x none)), record s { slots = d })

unfoldable pub reschedule : ℕ → ℕ → Action Scheduler (Option DeliverySchedule)
reschedule shipment new_slot_id s = rebook shipment (take_anywhere new_slot_id s.slots) s
