-- ===== src/Fulfillment/Shipments/Visits.antt =====
-- The statuses in the history of a shipment (domain/fulfillment/shipment_generation.py).
use supply_chain_execution.Common.{
  Bool, Bool-cases, List, [], any, arith, false, inl, inr, refl, some, true, ◌++◌, ◌||◌, ◌∷◌, ◌≡◌,
}
use supply_chain_execution.Core.Types.{ShipmentStatus, same_shipment}
use supply_chain_execution.Fulfillment.Shipments.{is_allowed, valid_transitions}
use supply_chain_execution.Fulfillment.Shipments.Trail.{IsTracked, Trail, created, step}
use supply_chain_execution.Persistence.Models.Transport.{Shipment, StateEntry}

-- The statuses that a shipment only reaches through transit.
abbrev is_after_transit : ShipmentStatus → Bool
is_after_transit b =
    same_shipment b ShipmentStatus.in_transit
    || same_shipment b ShipmentStatus.out_for_delivery
    || same_shipment b ShipmentStatus.exception
    || same_shipment b ShipmentStatus.delivered

abbrev pub visits : ShipmentStatus → List StateEntry → Bool
visits b h = any (λ (e : StateEntry). same_shipment e.status b) h

visits-append :
    (b : ShipmentStatus) (h h' : List StateEntry) → visits b (h ++ h') ≡ (visits b h || visits b h')
visits-append b [] h' = refl
visits-append b (e ∷ h) h' = rw (visits-append b h h') (ground arith)

before_transit :
    (a b : ShipmentStatus)
    → is_allowed a b ≡ true
    → is_after_transit b ≡ true
    → (is_after_transit a || same_shipment b ShipmentStatus.in_transit) ≡ true
unfolding valid_transitions
before_transit a b e f = ground arith

by_second : (p q x : Bool) → (p || q) ≡ true → p ≡ false → (x || (q || false)) ≡ true
by_second p q true e f = refl
by_second p q false e f = ground arith

Trail-visits :
    (h : List StateEntry) (b : ShipmentStatus)
    → Trail h b
    → is_after_transit b ≡ true
    → visits ShipmentStatus.in_transit h ≡ true
Trail-visits h b (created t) y = cc
Trail-visits h b (step h' a b' t p allowed) y =
    let split =
      visits-append ShipmentStatus.in_transit h'
        (record { status = b'; timestamp = t; previous = some a } ∷ []) in
    let was = before_transit a b' allowed y in
    elim (Bool-cases (is_after_transit a)) [
      | inl later ↦ rw (split, Trail-visits h' a p later) refl
      | inr first ↦ rw split (by_second _ _ _ was first)
    ]

-- A delivered shipment whose history is a path through the transition table has an entry
-- `in_transit` in its history.
delivered-visits :
    (x : Shipment)
    → IsTracked x
    → x.status ≡ ShipmentStatus.delivered
    → visits ShipmentStatus.in_transit x.state_history ≡ true
delivered-visits x h e = Trail-visits x.state_history x.status h.trail (rw e refl)
