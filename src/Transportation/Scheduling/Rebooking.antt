-- ===== src/Transportation/Scheduling/Rebooking.antt =====
-- `reschedule`, and `schedule_shipments` where the slots are there already.
use supply_chain_execution.Common.{
  ==_iff, All, Bool-cases, List, Option, [], ap, arith, false, if◌then◌else◌, inl, inr, length,
  none, not, refl, some, ℕ, ◌&&◌, ◌+◌, ◌-◌, ◌==◌, ◌∷◌, ◌≡◌,
}
use supply_chain_execution.Core.Effect.{ok}
use supply_chain_execution.Persistence.Session.{Env}
use supply_chain_execution.Transportation.Scheduling.{
  Calendar, DeliverySchedule, DeliverySlot, Scheduler, SchedulingResult, find_slots, ids_of,
  is_full, open_slots,
}
use supply_chain_execution.Transportation.Scheduling.Booking.{Distinct, Within, room}
use supply_chain_execution.Transportation.Scheduling.Docks.{AllBookable, Refers-self}
use supply_chain_execution.Transportation.Scheduling.Methods.{
  Dictionary, Round, after, ensure_slots, in_front, no_schedule, rebook, reschedule, schedule_for,
  schedule_into, schedule_shipments, take_anywhere, take_slot,
}
use supply_chain_execution.Transportation.Scheduling.Room.{
  IsBookable, Known, schedule_each-Effect, schedule_each-left,
}

-- The bookings that the slots with an id can still take.
abbrev pub room_at : ℕ → List DeliverySlot → ℕ
room_at id [] = 0
room_at id (x ∷ xs) = (if x.slot_id == id then x.capacity - x.booked else 0) + room_at id xs

abbrev pub total_room : ℕ → List (ℕ × List DeliverySlot) → ℕ
total_room id [] = 0
total_room id ((w, slots) ∷ rest) = room_at id slots + total_room id rest

-- Of the slots with this id, one booking is taken, and none of any other.
abbrev one_at : ℕ → ℕ → ℕ
one_at id k = if id == k then 1 else 0

-- A slot with the id was booked, or there is none with room.
abbrev IsTaken : ℕ → List DeliverySlot → Option (DeliverySlot × List DeliverySlot) → Type 0
IsTaken id xs none = room_at id xs ≡ 0
IsTaken id xs (some (x, xs')) =
    (x.slot_id ≡ id)
    × ((k : ℕ) → room_at k xs ≡ room_at k xs' + one_at id k)
    × (ids_of xs' ≡ ids_of xs)
    × (All Within xs → All Within xs')

after-IsTaken :
    (id : ℕ) (y : DeliverySlot) (ys : List DeliverySlot)
    (o : Option (DeliverySlot × List DeliverySlot))
    → ((y.slot_id == id) && not (is_full y)) ≡ false
    → IsTaken id ys o
    → IsTaken id (y ∷ ys) (after y o)
after-IsTaken id y ys none miss h = ground (arith, miss, h)
after-IsTaken id y ys (some (x, xs')) miss (own, a, b, c) =
    (own, λ k. omega (arith, a k), ap (λ l. y.slot_id ∷ l) b, λ w. (w.0, c w.1))

take_slot-IsTaken : (id : ℕ) (xs : List DeliverySlot) → IsTaken id xs (take_slot id xs)
unfolding take_slot
take_slot-IsTaken id [] = refl
take_slot-IsTaken id (y ∷ ys) = elim (Bool-cases ((y.slot_id == id) && not (is_full y))) [
  | inl hit ↦
      let own : y.slot_id ≡ id = (==_iff y.slot_id id).0 (ground (arith, hit)) in
      rw (hit, IsTaken)
        (
          own,
          λ k. rw own (ground (arith, hit)),
          refl,
          λ (w : All Within (y ∷ ys)). (ground (arith, hit), w.1),
        )
  | inr miss ↦
      rw (miss, IsTaken) (after-IsTaken id y ys (take_slot id ys) miss (take_slot-IsTaken id ys))
]

ids_of-Distinct : (xs ys : List DeliverySlot) → ids_of ys ≡ ids_of xs → Distinct xs → Distinct ys
ids_of-Distinct xs [] e d = tt
ids_of-Distinct [] (y ∷ ys) e d = absurd (cc)
ids_of-Distinct (x ∷ xs) (y ∷ ys) e d =
    let p : x.slot_id ≡ y.slot_id = cc in
    let q : ids_of ys ≡ ids_of xs = cc in (rw (← p, q) d.0, ids_of-Distinct xs ys q d.1)

abbrev IsBooked : ℕ → Dictionary → Option (DeliverySlot × Dictionary) → Type 0
IsBooked id d none = total_room id d ≡ 0
IsBooked id d (some (x, d')) =
    (x.slot_id ≡ id)
    × ((k : ℕ) → total_room k d ≡ total_room k d' + one_at id k)
    × (AllBookable d → AllBookable d')

in_front-IsBooked :
    (id w : ℕ) (slots : List DeliverySlot) (d : Dictionary) (o : Option (DeliverySlot × Dictionary))
    → room_at id slots ≡ 0
    → IsBooked id d o
    → IsBooked id ((w, slots) ∷ d) (in_front (w, slots) o)
in_front-IsBooked id w slots d none full h = omega (arith, full, h)
in_front-IsBooked id w slots d (some (x, d')) full (own, a, b) =
    (own, λ k. omega (arith, a k), λ h. (h.0, b h.1))

take_anywhere-IsBooked : (id : ℕ) (d : Dictionary) → IsBooked id d (take_anywhere id d)
unfolding take_anywhere
take_anywhere-IsBooked id [] = refl
take_anywhere-IsBooked id ((w, slots) ∷ d) =
    go (take_slot id slots) (take_slot-IsTaken id slots) (take_anywhere-IsBooked id d)
  where
    go :
        (o : Option (DeliverySlot × List DeliverySlot))
        → IsTaken id slots o
        → IsBooked id d (take_anywhere id d)
        → IsBooked id ((w, slots) ∷ d) (elim o [
          | some (x, slots') ↦ some (x, (w, slots') ∷ d)
          | none ↦ in_front (w, slots) (take_anywhere id d)
        ])
    go none t h = in_front-IsBooked id w slots d (take_anywhere id d) t h
    go (some (x, slots')) (own, a, b, c) h =
        (own, λ k. omega (arith, a k), λ k. ((ids_of-Distinct slots slots' b k.0.0, c k.0.1), k.1))

-- Either no slot with the id has room, and nothing changes; or the schedule is for this shipment
-- and this slot, and one place of it is gone.
abbrev pub IsRebooked : ℕ → ℕ → Scheduler → Option DeliverySchedule × Dictionary → Type 0
IsRebooked shipment slot s (none, d) = (total_room slot s.slots ≡ 0) × (d ≡ s.slots)
IsRebooked shipment slot s (some schedule, d) =
    (schedule.shipment_id ≡ shipment)
    × (schedule.slot ≡ slot)
    × ((k : ℕ) → total_room k s.slots ≡ total_room k d + (if slot == k then 1 else 0))

-- `reschedule` returns. If no slot with the new id has room, it gives no schedule and leaves the
-- scheduler as it is; otherwise it gives one for the shipment and the new slot, books one place of
-- this slot, and frees none of any other, wherever the shipment was booked before. The session
-- stays as it is.
pub reschedule-outcome :
    (shipment slot : ℕ) (s : Scheduler)
    → (result : Option DeliverySchedule) × (s' : Scheduler) × (reschedule shipment slot s
        ≡ (ok result, s'))
      × (s'.session ≡ s.session)
      × IsRebooked shipment slot s (result, s'.slots)
unfolding reschedule rebook
reschedule-outcome shipment slot s =
    go (take_anywhere slot s.slots) (take_anywhere-IsBooked slot s.slots)
  where
    go :
        (o : Option (DeliverySlot × Dictionary))
        → IsBooked slot s.slots o
        → (result : Option DeliverySchedule) × (s' : Scheduler) × (rebook shipment o s
            ≡ (ok result, s'))
          × (s'.session ≡ s.session)
          × IsRebooked shipment slot s (result, s'.slots)
    go none h = (none, s, refl, refl, (h, refl))
    go (some (x, d)) h =
        (some (schedule_for shipment x none), record s { slots = d }, refl, refl, (refl, h.0, h.1))

pub reschedule-AllBookable :
    (shipment slot : ℕ) (s : Scheduler)
    → AllBookable s.slots
    → AllBookable (reschedule shipment slot s).1.slots
unfolding reschedule rebook
reschedule-AllBookable shipment slot s k =
    go (take_anywhere slot s.slots) (take_anywhere-IsBooked slot s.slots)
  where
    go :
        (o : Option (DeliverySlot × Dictionary))
        → IsBooked slot s.slots o
        → AllBookable (rebook shipment o s).1.slots
    go none h = k
    go (some (x, d)) h = h.2 k

-- Where the warehouse has slots and every shipment is known, `schedule_shipments` leaves out as
-- many shipments as there are more of them than there is room, and schedules the others.
pub schedule_shipments-room :
    (env : Env) (calendar : Calendar) (w : ℕ) (ids : List ℕ) (slots : List DeliverySlot)
    (s : Scheduler)
    → find_slots w s.slots ≡ some slots
    → IsBookable slots
    → All (Known s.session) ids
    → (result : SchedulingResult) × (s' : Scheduler) × (schedule_shipments env calendar w ids s
        ≡ (ok result, s'))
      × (length result.unscheduled ≡ length ids - room slots)
      × (length result.scheduled + length result.unscheduled ≡ length ids)
unfolding schedule_shipments ensure_slots schedule_into
schedule_shipments-room env calendar w ids slots s e h known =
    let opened = ids_of (open_slots slots) in
    let r : Round = record { slots = slots; result = no_schedule } in
    let (a, b, c) = schedule_each-Effect opened ids r s.session h (Refers-self slots) in
    let left = schedule_each-left opened ids r s.session h (Refers-self slots) known in
    rw e (_, _, refl, omega (arith, left), omega (arith, c))
