-- ===== src/Transportation/Scheduling.antt =====
-- src/nexusops/domain/transportation/scheduling.py. The scheduler keeps its slots beside the
-- session. `available_slots` is a list of references: the slots with an id in a list of ids. A
-- difference of times is compared in microseconds; `dock_door` is its number.
pub mod Methods
pub mod Booking
pub mod Room
pub mod Docks
pub mod Rebooking
pub mod Counter
pub mod Runs
use supply_chain_execution.Common.{
  Bool, List, Option, [], false, filter, if◌then◌else◌, leb, ltb, map, none, not, some, suc, zero,
  ℕ, ◌*◌, ◌++◌, ◌+◌, ◌-◌, ◌==◌, ◌||◌, ◌∷◌,
}
use supply_chain_execution.Common.Int.{abs, pos, ℤ, ◌+ℤ◌, ◌-ℤ◌}
use supply_chain_execution.Core.Effect.{Action, modify, pure, ◌>>=◌, ◌>>◌}
use supply_chain_execution.Persistence.Session.{Db, Env, Session, draw_uuid, minute}

pub data DeliveryWindow : Type 0 where
  morning afternoon evening : DeliveryWindow

abbrev pub windows : List DeliveryWindow
windows = morning ∷ afternoon ∷ evening ∷ []

pub record DeliverySlot : Type 0 where
  pub slot_id : ℕ
  pub warehouse_id : ℕ
  pub window : DeliveryWindow
  pub date : ℤ
  pub capacity : ℕ
  pub booked : ℕ

-- The property `available`.
unfoldable pub available_docks : DeliverySlot → ℕ
available_docks slot = slot.capacity - slot.booked

abbrev pub is_full : DeliverySlot → Bool
is_full slot = leb slot.capacity slot.booked

pub record DeliverySchedule : Type 0 where
  pub shipment_id : ℕ
  pub slot : ℕ
  pub estimated_arrival : ℤ
  pub estimated_departure : ℤ
  pub dock_door : Option ℕ

pub data Conflict : Type 0 where
  not_known no_slot : ℕ → Conflict

pub record SchedulingResult : Type 0 where
  pub scheduled : List DeliverySchedule
  pub unscheduled : List ℕ
  pub conflicts : List Conflict

-- `datetime.weekday` and `replace(hour=8, minute=0, second=0, microsecond=0)`.
pub record Calendar : Type 0 where
  pub weekday : ℤ → ℕ
  pub at_eight : ℤ → ℤ

-- `DeliveryScheduler`: its session, and `_slots`.
pub record Scheduler : Type 0 where
  pub session : Session
  pub slots : List (ℕ × List DeliverySlot)

abbrev pub default_dock_capacity : ℕ
default_dock_capacity = 8

abbrev pub hour : ℕ
hour = 60 * minute

abbrev pub day : ℕ
day = 24 * hour

abbrev pub slot_duration_hours : ℕ
slot_duration_hours = 4

-- An action on the session, by a method of the scheduler.
abbrev pub in_session : {A : Type 0} → Db A → Action Scheduler A
in_session m s = let (r, session') = m s.session in (r, record s { session = session' })

abbrev pub find_slots : ℕ → List (ℕ × List DeliverySlot) → Option (List DeliverySlot)
find_slots w [] = none
find_slots w ((k, l) ∷ rest) = if k == w then some l else find_slots w rest

-- `_slots[warehouse_id] = slots`
unfoldable pub set_slots :
    ℕ → List DeliverySlot → List (ℕ × List DeliverySlot) → List (ℕ × List DeliverySlot)
set_slots w slots [] = (w, slots) ∷ []
set_slots w slots ((k, l) ∷ rest) =
    if k == w then (w, slots) ∷ rest else (k, l) ∷ set_slots w slots rest

abbrev pub new_slot : ℕ → ℕ → DeliveryWindow → ℤ → DeliverySlot
new_slot id w window date = record {
  slot_id = id;
  warehouse_id = w;
  window = window;
  date = date;
  capacity = default_dock_capacity;
  booked = 0;
}

module _ (env : Env) (calendar : Calendar) where
  -- The inner loop of `generate_slots`, over the windows of one day.
  unfoldable pub slots_of_day :
      ℕ → ℤ → List DeliveryWindow → List DeliverySlot → Db (List DeliverySlot)
  slots_of_day w date [] acc = pure acc
  slots_of_day w date (window ∷ rest) acc = do
    id ← draw_uuid env
    slots_of_day w date rest (acc ++ new_slot id w window (calendar.at_eight date) ∷ [])

  -- The days from `offset` on; a weekend has no slots.
  unfoldable pub slots_of_days : ℕ → ℤ → ℕ → ℕ → List DeliverySlot → Db (List DeliverySlot)
  slots_of_days w first offset zero acc = pure acc
  slots_of_days w first offset (suc days) acc =
      let date = first +ℤ pos (offset * day) in
      do
        acc' ← if leb 5 (calendar.weekday date) then pure acc else slots_of_day w date windows acc
        slots_of_days w first (offset + 1) days acc'

  unfoldable pub generate_slots : ℕ → ℤ → ℕ → Action Scheduler (List DeliverySlot)
  generate_slots w first days = do
    slots ← in_session (slots_of_days w first 0 days [])
    modify (λ (s : Scheduler). record s { slots = set_slots w slots s.slots })
    pure slots

abbrev pub contains : List ℕ → ℕ → Bool
contains [] a = false
contains (x ∷ xs) a = (x == a) || contains xs a

abbrev pub open_slots : List DeliverySlot → List DeliverySlot
open_slots slots = filter (λ (x : DeliverySlot). not (is_full x)) slots

abbrev pub ids_of : List DeliverySlot → List ℕ
ids_of slots = map (λ (x : DeliverySlot). x.slot_id) slots

-- What a list of references refers to.
abbrev pub referred : List ℕ → List DeliverySlot → List DeliverySlot
referred ids slots = filter (λ (x : DeliverySlot). contains ids x.slot_id) slots

abbrev pub distance : ℤ → DeliverySlot → ℕ
distance preferred slot = abs (slot.date -ℤ preferred)

-- `min(slots, key=...)`: the first of the nearest.
unfoldable pub nearest : ℤ → DeliverySlot → List DeliverySlot → DeliverySlot
nearest preferred best [] = best
nearest preferred best (x ∷ xs) =
    nearest preferred (if ltb (distance preferred x) (distance preferred best) then x else best) xs

unfoldable pub pick_slot : Option ℤ → List DeliverySlot → Option DeliverySlot
pick_slot preferred [] = none
pick_slot none (x ∷ xs) = some x
pick_slot (some t) (x ∷ xs) = some (nearest t x xs)

-- `_find_best_slot`
unfoldable pub find_best_slot : List DeliverySlot → Option ℤ → Option DeliverySlot
find_best_slot slots preferred = pick_slot preferred (open_slots slots)
