-- ===== src/Transportation/Scheduling/Room.antt =====
-- `schedule_shipments` counted: what is booked, what is left out, and the room for both.
use mathlib.Core.Path.{subst}
use supply_chain_execution.Common.{
  All, All-map, List, Option, [], ap, arith, inl, inr, is_some, is_some-value, length,
  length-append, none, refl, some, sym, ℕ, ◌+◌, ◌-◌, ◌∙◌, ◌∷◌, ◌≡◌, ◌⊎◌,
}
use supply_chain_execution.Common.Int.{ℤ}
use supply_chain_execution.Persistence.Models.Transport.{Shipment}
use supply_chain_execution.Persistence.Queries.Transport.{find_shipment, put_shipment, shipment_id}
use supply_chain_execution.Persistence.Session.{Session}
use supply_chain_execution.Persistence.Table.Laws.{is_some-get-put}
use supply_chain_execution.Transportation.Scheduling.{
  Conflict, DeliverySlot, find_best_slot, no_slot, not_known, referred,
}
use supply_chain_execution.Transportation.Scheduling.Booking.{
  Distinct, Refers, Within, book-Distinct, book-Refers, book-effect, find_best_slot-Among,
  find_best_slot-room, room,
}
use supply_chain_execution.Transportation.Scheduling.Methods.{
  Round, leave, place_shipment, schedule_each, schedule_for, schedule_found,
}

-- The slots of one warehouse: different objects, none booked over its capacity.
abbrev pub IsBookable : List DeliverySlot → Type 0
IsBookable slots = Distinct slots × All Within slots

abbrev pub Known : Session → ℕ → Type 0
Known s id = (x : Shipment) × (find_shipment id s ≡ some x)

abbrev pub count_scheduled : Round → ℕ
count_scheduled r = length r.result.scheduled

abbrev pub count_left : Round → ℕ
count_left r = length r.result.unscheduled

-- What one round does to the counts.
record Effect (ids : List ℕ) (r r' : Round) : Type 0 where
  pub sound : IsBookable r'.slots
  pub covers : Refers ids r'.slots
  pub booked : count_scheduled r' + room r'.slots ≡ count_scheduled r + room r.slots
  pub placed : count_scheduled r' + count_left r' ≡ count_scheduled r + count_left r + 1

-- A known shipment is left out only if there is no room.
abbrev IsPlaced : Round → Round → Type 0
IsPlaced r r' =
    (count_left r' ≡ count_left r) ⊎ (room r.slots ≡ 0) × (count_left r' ≡ count_left r + 1)

module _ (ids : List ℕ) (r : Round) (ready : IsBookable r.slots) (c : Refers ids r.slots) where
  leave-Effect : (id : ℕ) (reason : Conflict) → Effect ids r (leave id reason r)
  leave-Effect id reason = record {
    sound = ready;
    covers = c;
    booked = refl;
    placed = omega (arith, length-append r.result.unscheduled (id ∷ []));
  }

  place_shipment-Effect :
      (x : Shipment) (id : ℕ) (t : Option ℤ) (s : Session) (found : Option DeliverySlot)
      → find_best_slot (referred ids r.slots) t ≡ found
      → Effect ids r (place_shipment x id found r s).0
        × IsPlaced r (place_shipment x id found r s).0
  unfolding place_shipment
  place_shipment-Effect x id t s none e = (
    leave-Effect id (no_slot id),
    inr (
      find_best_slot-room ids r.slots t c e,
      omega (arith, length-append r.result.unscheduled (id ∷ [])),
    ),
  )
  place_shipment-Effect x id t s (some slot) e =
      let (here, free) = find_best_slot-Among ids r.slots t slot e in
      let (within, less) = book-effect slot r.slots ready.0 ready.1 here free in
      let longer =
        length-append r.result.scheduled (schedule_for id slot (some (slot.booked + 1)) ∷ []) in
      (
        record {
          sound = (book-Distinct slot.slot_id r.slots ready.0, within);
          covers = book-Refers ids slot.slot_id r.slots c;
          booked = omega (arith, longer, less);
          placed = omega (arith, longer);
        },
        inl refl,
      )

  schedule_found-Effect :
      (id : ℕ) (s : Session) (found : Option Shipment)
      → Effect ids r (schedule_found ids id found r s).0
  unfolding schedule_found
  schedule_found-Effect id s none = leave-Effect id (not_known id)
  schedule_found-Effect id s (some x) = (place_shipment-Effect x id x.scheduled_delivery s _ refl).0

  schedule_found-IsPlaced :
      (id : ℕ) (s : Session)
      → Known s id
      → IsPlaced r (schedule_found ids id (find_shipment id s) r s).0
  unfolding schedule_found
  schedule_found-IsPlaced id s (x, e) =
      subst (λ o. IsPlaced r (schedule_found ids id o r s).0) (sym e)
        (place_shipment-Effect x id x.scheduled_delivery s _ refl).1

-- Every shipment is counted once, and every booking takes one place.
pub schedule_each-Effect :
    (ids todo : List ℕ) (r : Round) (s : Session)
    → IsBookable r.slots
    → Refers ids r.slots
    → let r' = (schedule_each ids todo r s).0 in
      IsBookable r'.slots
      × (count_scheduled r' + room r'.slots ≡ count_scheduled r + room r.slots)
      × (count_scheduled r' + count_left r' ≡ count_scheduled r + count_left r + length todo)
unfolding schedule_each
schedule_each-Effect ids [] r s ready c = (ready, refl, omega arith)
schedule_each-Effect ids (id ∷ todo) r s ready c =
    let e = schedule_found-Effect ids r ready c id s (find_shipment id s) in
    let (r', s') = schedule_found ids id (find_shipment id s) r s in
    let (a, b, d) = schedule_each-Effect ids todo r' s' e.sound e.covers in
    (a, omega (arith, b, e.booked), omega (arith, d, e.placed))

-- Storing an object forgets none.

put-Known :
    (x y : Shipment) (id : ℕ) (s : Session)
    → find_shipment id s ≡ some y
    → Known (put_shipment x s).1 id
unfolding find_shipment put_shipment
put-Known x y id s e = is_some-value _ (is_some-get-put shipment_id x id s.shipments ∙ ap is_some e)

abbrev pub KeepsKnown : Session → Session → Type 0
KeepsKnown s s' = (id : ℕ) → Known s id → Known s' id

pub schedule_found-KeepsKnown :
    (ids : List ℕ) (id : ℕ) (found : Option Shipment) (r : Round) (s : Session)
    → KeepsKnown s (schedule_found ids id found r s).1
unfolding schedule_found place_shipment
schedule_found-KeepsKnown ids id none r s k h = h
schedule_found-KeepsKnown ids id (some x) r s k h =
    go (find_best_slot (referred ids r.slots) x.scheduled_delivery)
  where
    go : (slot : Option DeliverySlot) → Known (place_shipment x id slot r s).1 k
    go none = h
    go (some slot) = put-Known _ h.0 k s h.1

-- Shipments that are known are left out only for want of room.
pub schedule_each-left :
    (ids todo : List ℕ) (r : Round) (s : Session)
    → IsBookable r.slots
    → Refers ids r.slots
    → All (Known s) todo
    → let r' = (schedule_each ids todo r s).0 in
      count_left r' ≡ count_left r + (length todo - room r.slots)
unfolding schedule_each
schedule_each-left ids [] r s ready c known = omega arith
schedule_each-left ids (id ∷ todo) r s ready c known =
    let e = schedule_found-Effect ids r ready c id s (find_shipment id s) in
    let p = schedule_found-IsPlaced ids r ready c id s known.0 in
    let keeps = schedule_found-KeepsKnown ids id (find_shipment id s) r s in
    let (r', s') = schedule_found ids id (find_shipment id s) r s in
    let ih = schedule_each-left ids todo r' s' e.sound e.covers (All-map keeps todo known.1) in
    elim p [
      | inl same ↦ omega (arith, ih, same, e.booked, e.placed)
      | inr (full, more) ↦ omega (arith, ih, full, more, e.booked, e.placed)
    ]
