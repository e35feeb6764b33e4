-- ===== src/Fulfillment/Shipments/Trail.antt =====
-- The history of a shipment under `transition_state`
-- (domain/fulfillment/shipment_generation.py).
use supply_chain_execution.Common.{
  Bool-cases, List, Option-cases, [], false, inl, inr, length, length-append, none, refl, some,
  true, ℕ, ◌++◌, ◌+◌, ◌∷◌, ◌≡◌, ◌⊎◌,
}
use supply_chain_execution.Common.Int.{int_laws, pos, ℤ, ◌+ℤ◌}
use supply_chain_execution.Core.Effect.{ok, raised}
use supply_chain_execution.Core.Exceptions.{shipment_state_error}
use supply_chain_execution.Core.Types.{ShipmentStatus, same_shipment}
use supply_chain_execution.Fulfillment.Shipments.{
  draw_delivery, is_allowed, moved, transition_state,
}
use supply_chain_execution.Inventory.Stock.{AllObjects, AllObjects-Holds, AllObjects-put}
use supply_chain_execution.Persistence.Models.Transport.{Shipment, StateEntry}
use supply_chain_execution.Persistence.Queries.Transport.{get_shipment, put_shipment, shipment_id}
use supply_chain_execution.Persistence.Session.{Env, Session}
use supply_chain_execution.Persistence.Table.{get, put}
use supply_chain_execution.Persistence.Table.Laws.{get-Holds}

-- The histories that the transition table admits, and the status each ends at.
pub data Trail : List StateEntry → ShipmentStatus → Type 0 where
  created :
      (t : ℤ)
      → Trail
          (record { status = ShipmentStatus.draft; timestamp = t; previous = none } ∷ [])
          ShipmentStatus.draft
  step :
      (h : List StateEntry) (a b : ShipmentStatus) (t : ℤ)
      → Trail h a
      → is_allowed a b ≡ true
      → Trail (h ++ record { status = b; timestamp = t; previous = some a } ∷ []) b

-- A shipment's history is a trail to its status, and its version counts the entries.
pub record IsTracked (x : Shipment) : Type 0 where
  pub trail : Trail x.state_history x.status
  pub version : x.version ≡ pos (length x.state_history)

moved-IsTracked :
    (new : ShipmentStatus) (t d : ℤ) (x : Shipment)
    → is_allowed x.status new ≡ true
    → IsTracked x
    → IsTracked (moved new t d x)
unfolding moved
moved-IsTracked new t d x allowed h = record {
  trail = step x.state_history x.status new t h.trail allowed;
  version =
      let e = h.version in
      let l =
        length-append x.state_history
          (record { status = new; timestamp = t; previous = some x.status } ∷ []) in
      grind (int_laws, e, l);
}

abbrev pub AllTracked : Session → Type 0
AllTracked s = AllObjects IsTracked s.shipments

draw_delivery-returns :
    (env : Env) (new : ShipmentStatus) (t : ℤ) (s : Session)
    → (d : ℤ) × (s' : Session) × (draw_delivery env new t s ≡ (ok d, s'))
      × (s'.shipments ≡ s.shipments)
unfolding draw_delivery
draw_delivery-returns env new t s = elim (Bool-cases (same_shipment new ShipmentStatus.delivered)) [
  | inl y ↦ rw y (_, _, refl, refl)
  | inr n ↦ rw n (_, _, refl, refl)
]

-- The shipment `y` is `x` after a move to `new`.
pub record HasMoved (x : Shipment) (new : ShipmentStatus) (y : Shipment) : Type 0 where
  pub id : y.id ≡ x.id
  pub status : y.status ≡ new
  pub version : y.version ≡ x.version +ℤ pos 1
  pub entry :
      (t : ℤ) × (y.state_history
        ≡ x.state_history ++ record { status = new; timestamp = t; previous = some x.status } ∷ [])
  pub kept :
      (y.order_id ≡ x.order_id)
      × (y.carrier_id ≡ x.carrier_id)
      × (y.total_weight_kg ≡ x.total_weight_kg)
  pub delivery :
      ((same_shipment new ShipmentStatus.delivered ≡ true)
        × ((t : ℤ) × (y.actual_delivery ≡ some t)))
      ⊎ ((same_shipment new ShipmentStatus.delivered ≡ false)
          × (y.actual_delivery ≡ x.actual_delivery))

moved-delivery :
    (new : ShipmentStatus) (t d : ℤ) (x : Shipment)
    → ((same_shipment new ShipmentStatus.delivered ≡ true)
        × ((t' : ℤ) × ((moved new t d x).actual_delivery ≡ some t')))
      ⊎ ((same_shipment new ShipmentStatus.delivered ≡ false)
          × ((moved new t d x).actual_delivery ≡ x.actual_delivery))
unfolding moved
moved-delivery new t d x = elim (Bool-cases (same_shipment new ShipmentStatus.delivered)) [
  | inl y ↦ inl (y, (d, rw y refl))
  | inr n ↦ inr (n, rw n refl)
]

module _ (env : Env) (new : ShipmentStatus) where
  -- Whatever state it is asked for, and whether it moves the shipment or raises, `transition_state`
  -- keeps every shipment's history a path through the transition table from `draft` to the
  -- shipment's status, with as many entries as its version says.
  pub transition_state-AllTracked :
      (id : ℕ) (s : Session) → AllTracked s → AllTracked (transition_state env id new s).1
  unfolding transition_state put_shipment get_shipment
  transition_state-AllTracked id s h = elim (Option-cases (get shipment_id id s.shipments)) [
    | inl e ↦ rw e h
    | inr (x, e) ↦ elim (Bool-cases (is_allowed x.status new)) [
      | inr refused ↦ rw (e, refused) h
      | inl taken ↦
          let (held, _) = get-Holds shipment_id id x s.shipments e in
          let s₁ = record s { draws = s.draws + 1 } in
          let (d, s₂, made, same) = draw_delivery-returns env new (env.now s.draws) s₁ in
          rw (e, taken, made, same)
            (AllObjects-put IsTracked shipment_id (moved new (env.now s.draws) d x) s.shipments
              (moved-IsTracked new (env.now s.draws) d x taken
                (AllObjects-Holds IsTracked x s.shipments h held))
              h)
    ]
  ]

  -- `transition_state` on a shipment of the session: either the table has no such move, and it
  -- raises and leaves the session alone; or the table has it, and it returns the shipment with the
  -- new status, a version more and one more entry in its history, which names both statuses, and
  -- this shipment is the session's. It has a time of delivery if the new status is `delivered`, and
  -- otherwise the one it had; its order, carrier and weight are kept.
  pub transition_state-outcome :
      (id : ℕ) (x : Shipment) (s : Session)
      → get shipment_id id s.shipments ≡ some x
      → ((is_allowed x.status new ≡ false)
          × (transition_state env id new s ≡ (raised (shipment_state_error id x.status new), s)))
        ⊎ ((is_allowed x.status new ≡ true)
            × ((y : Shipment) × ((transition_state env id new s).0 ≡ ok y)
                × ((transition_state env id new s).1.shipments ≡ put shipment_id y s.shipments)
                × HasMoved x new y))
  unfolding transition_state put_shipment get_shipment moved
  transition_state-outcome id x s e = elim (Bool-cases (is_allowed x.status new)) [
    | inr refused ↦ inl (refused, rw (e, refused) refl)
    | inl taken ↦
        let s₁ = record s { draws = s.draws + 1 } in
        let (d, s₂, made, same) = draw_delivery-returns env new (env.now s.draws) s₁ in
        inr (
          taken,
          (
            moved new (env.now s.draws) d x,
            rw (e, taken, made) refl,
            rw (e, taken, made, same) refl,
            record {
              id = refl;
              status = refl;
              version = refl;
              entry = (env.now s.draws, refl);
              kept = (refl, refl, refl);
              delivery = moved-delivery new (env.now s.draws) d x;
            },
          ),
        )
  ]
