-- ===== src/Fulfillment/Generation/Stops.antt =====
-- The stops of a shipment that has just been generated, as a query sees them.
use supply_chain_execution.Common.{[], arith, length, refl, ℕ, ◌+◌, ◌==◌, ◌∙◌, ◌∷◌, ◌≡◌, ◌≢◌}
use supply_chain_execution.Core.Effect.{ok}
use supply_chain_execution.Fulfillment.Generation.{add_stops, generate_shipment}
use supply_chain_execution.Inventory.Stock.{AllObjects}
use supply_chain_execution.Persistence.Models.Fulfillment.{FulfillmentPlan, Order}
use supply_chain_execution.Persistence.Models.Transport.{Shipment, ShipmentStop}
use supply_chain_execution.Persistence.Models.Warehouse.{Warehouse}
use supply_chain_execution.Persistence.Queries.Fulfillment.{put_plan}
use supply_chain_execution.Persistence.Queries.Transport.{add_shipment, add_stop, stops_of}
use supply_chain_execution.Persistence.Session.{Env, Session, flush_all}
use supply_chain_execution.Persistence.Table.{Table, add, flush, objects, select}

abbrev pub IsElsewhere : ℕ → ShipmentStop → Type 0
IsElsewhere id x = x.shipment_id ≢ id

select-none :
    (id : ℕ) (t : Table ShipmentStop)
    → AllObjects (IsElsewhere id) t
    → select (λ x. x.shipment_id == id) (flush t) ≡ []
unfolding select flush
select-none id [] h = refl
select-none id (row ∷ t) h = ground (arith, select-none id t h.1, h.0)

select-add :
    (id : ℕ) (x : ShipmentStop) (t : Table ShipmentStop)
    → select (λ y. y.shipment_id == id) (add x t) ≡ select (λ y. y.shipment_id == id) t
unfolding select add
select-add id x [] = refl
select-add id x (row ∷ t) = ground (arith, select-add id x t)

length-add :
    (x : ShipmentStop) (t : Table ShipmentStop)
    → length (objects (add x t)) ≡ length (objects t) + 1
unfolding add
length-add x [] = omega arith
length-add x (row ∷ t) = omega (arith, length-add x t)

length-flush : (t : Table ShipmentStop) → length (objects (flush t)) ≡ length (objects t)
unfolding flush
length-flush [] = refl
length-flush (row ∷ t) = omega (arith, length-flush t)

-- The two stops of a new shipment are added to the session and not flushed: the query of the stops
-- of the shipment, whose id no stop of the session had before, finds none of them.
pub generate_shipment-stops :
    (env : Env) (plan : FulfillmentPlan) (o : Order) (w : Warehouse) (s : Session)
    → let id = env.uuid4 (s.draws + 1 + 1) in
      AllObjects (IsElsewhere id) s.stops
      → let (r, s') = generate_shipment env plan o w s in
        (x : Shipment) × (r ≡ ok x)
        × (x.id ≡ id)
        × (stops_of id s' ≡ [])
        × (length (objects s'.stops) ≡ length (objects s.stops) + 2)
unfolding generate_shipment add_shipment add_stops add_stop put_plan flush_all stops_of
generate_shipment-stops env plan o w s h =
    let id = env.uuid4 (s.draws + 1 + 1) in
    (
      _,
      refl,
      refl,
      select-add id _ _ ∙ select-add id _ (flush s.stops) ∙ select-none id s.stops h,
      omega (
        arith,
        length-add _ (add _ (flush s.stops)),
        length-add _ (flush s.stops),
        length-flush s.stops,
      ),
    )
