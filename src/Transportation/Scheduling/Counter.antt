-- ===== src/Transportation/Scheduling/Counter.antt =====
-- `schedule_shipments` against a counter of free places, over a sequence of its calls.
use supply_chain_execution.Common.{
  All, All-map, Bool-cases, List, [], arith, inl, inr, length, map, refl, some, ℕ, ◌-◌, ◌==◌, ◌∷◌,
  ◌≡◌,
}
use supply_chain_execution.Core.Effect.{Action, ok, pure, ◌>>=◌}
use supply_chain_execution.Optimization.Placement.Sources.{left}
use supply_chain_execution.Persistence.Queries.Transport.{find_shipment}
use supply_chain_execution.Persistence.Session.{Env, Session}
use supply_chain_execution.Transportation.Scheduling.{
  Calendar, DeliverySlot, Scheduler, SchedulingResult, find_slots, ids_of, open_slots, set_slots,
}
use supply_chain_execution.Transportation.Scheduling.Booking.{room}
use supply_chain_execution.Transportation.Scheduling.Docks.{Refers-self}
use supply_chain_execution.Transportation.Scheduling.Methods.{
  Round, ensure_slots, no_schedule, schedule_each, schedule_found, schedule_into,
  schedule_shipments,
}
use supply_chain_execution.Transportation.Scheduling.Room.{
  IsBookable, KeepsKnown, Known, schedule_each-Effect, schedule_each-left,
  schedule_found-KeepsKnown,
}

-- The counter: each batch takes a place for each of its shipments, as long as there are any, and the
-- rest of the batch is left out.
unfoldable pub left_out : ℕ → List ℕ → List ℕ
left_out places [] = []
left_out places (n ∷ sizes) = (n - places) ∷ left_out (places - n) sizes

-- The calls for one warehouse after each other, and how many shipments each left unscheduled.
unfoldable pub schedule_batches : Env → Calendar → ℕ → List (List ℕ) → Action Scheduler (List ℕ)
schedule_batches env calendar w [] = pure []
schedule_batches env calendar w (ids ∷ batches) = do
  result ← schedule_shipments env calendar w ids
  counts ← schedule_batches env calendar w batches
  pure (length result.unscheduled ∷ counts)

find_slots-set_slots :
    (w : ℕ) (slots : List DeliverySlot) (d : List (ℕ × List DeliverySlot))
    → find_slots w (set_slots w slots d) ≡ some slots
unfolding set_slots
find_slots-set_slots w slots [] = ground arith
find_slots-set_slots w slots ((k, l) ∷ rest) = elim (Bool-cases (k == w)) [
  | inl e ↦ rw e (ground arith)
  | inr e ↦ rw (e, e) (find_slots-set_slots w slots rest)
]

schedule_each-KeepsKnown :
    (ids todo : List ℕ) (r : Round) (s : Session) → KeepsKnown s (schedule_each ids todo r s).1
unfolding schedule_each
schedule_each-KeepsKnown ids [] r s k h = h
schedule_each-KeepsKnown ids (id ∷ todo) r s k h =
    let (r', s') = schedule_found ids id (find_shipment id s) r s in
    schedule_each-KeepsKnown ids todo r' s' k
      (schedule_found-KeepsKnown ids id (find_shipment id s) r s k h)

-- The slots of a warehouse with that many free places.
pub record HasRoom (w places : ℕ) (s : Scheduler) : Type 0 where
  pub slots : List DeliverySlot
  pub found : find_slots w s.slots ≡ some slots
  pub bookable : IsBookable slots
  pub free : room slots ≡ places

schedule_shipments-HasRoom :
    (env : Env) (calendar : Calendar) (w places : ℕ) (ids : List ℕ) (s : Scheduler)
    → HasRoom w places s
    → All (Known s.session) ids
    → (result : SchedulingResult) × (s' : Scheduler) × (schedule_shipments env calendar w ids s
        ≡ (ok result, s'))
      × (length result.unscheduled ≡ length ids - places)
      × HasRoom w (places - length ids) s'
      × KeepsKnown s.session s'.session
unfolding schedule_shipments ensure_slots schedule_into
schedule_shipments-HasRoom env calendar w places ids s h known =
    let opened = ids_of (open_slots h.slots) in
    let r : Round = record { slots = h.slots; result = no_schedule } in
    let covered = Refers-self h.slots in
    let (a, b, c) = schedule_each-Effect opened ids r s.session h.bookable covered in
    let left = schedule_each-left opened ids r s.session h.bookable covered known in
    rw (h.found) (
      _,
      _,
      refl,
      omega (arith, left, h.free),
      record {
        slots = _;
        found = find_slots-set_slots w _ s.slots;
        bookable = a;
        free = omega (arith, b, c, left, h.free);
      },
      schedule_each-KeepsKnown opened ids r s.session,
    )

-- Where the warehouse has slots that are different and not overbooked, and every shipment is known,
-- the calls for any sequence of batches return, and leave out of each batch as many shipments as
-- the counter does that starts with the places that the slots have left.
pub schedule_batches-refines :
    (env : Env) (calendar : Calendar) (w places : ℕ) (batches : List (List ℕ)) (s : Scheduler)
    → HasRoom w places s
    → All (All (Known s.session)) batches
    → (s' : Scheduler) × (schedule_batches env calendar w batches s
        ≡ (ok (left_out places (map length batches)), s'))
unfolding schedule_batches left_out
schedule_batches-refines env calendar w places [] s h known = (s, refl)
schedule_batches-refines env calendar w places (ids ∷ batches) s h known =
    let (result, s₁, run, left, h₁, keeps) =
      schedule_shipments-HasRoom env calendar w places ids s h known.0 in
    let still = All-map (λ l. All-map keeps l) batches known.1 in
    let (s₂, rest) =
      schedule_batches-refines env calendar w (places - length ids) batches s₁ h₁ still in
    (s₂, rw (run, rest, left) refl)
