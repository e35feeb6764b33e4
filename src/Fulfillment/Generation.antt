-- ===== src/Fulfillment/Generation.antt =====
-- src/nexusops/domain/fulfillment/shipment_generation.py: `generate_from_plan` and
-- `generate_for_order`. A shipment's number is drawn, and left out.
pub mod Draft
pub mod Stops
use supply_chain_execution.Common.{List, [], if◌then◌else◌, none, some, ℕ, ◌++◌, ◌∷◌}
use supply_chain_execution.Common.Int.{pos, ℤ}
use supply_chain_execution.Core.Effect.{gets, pure, ◌>>=◌, ◌>>◌}
use supply_chain_execution.Core.Types.{ShipmentStatus}
use supply_chain_execution.Fulfillment.Shipments.{transition_state}
use supply_chain_execution.Persistence.Models.Fulfillment.{FulfillmentPlan, Order, PlanStatus}
use supply_chain_execution.Persistence.Models.Transport.{Shipment, StopType}
use supply_chain_execution.Persistence.Models.Warehouse.{Warehouse}
use supply_chain_execution.Persistence.Queries.Fulfillment.{
  get_order, get_plan, get_plans_for_order, is_open_plan, plan_id, put_plan,
}
use supply_chain_execution.Persistence.Queries.Transport.{add_shipment, add_stop, shipment_id}
use supply_chain_execution.Persistence.Queries.Warehouse.{get_warehouse}
use supply_chain_execution.Persistence.Session.{Db, Env, draw_now, draw_uuid}

abbrev pub new_shipment : ℕ → ℤ → Order → Warehouse → Shipment
new_shipment id now order warehouse = record {
  id = id;
  order_id = order.id;
  warehouse_id = warehouse.id;
  carrier_id = none;
  status = ShipmentStatus.draft;
  origin_address = warehouse.address;
  destination_address = order.ship_to_address;
  total_weight_kg = some (pos 0);
  total_packages = pos 1;
  scheduled_pickup = none;
  scheduled_delivery = none;
  actual_delivery = none;
  consolidation_group_id = none;
  state_history = record { status = ShipmentStatus.draft; timestamp = now; previous = none } ∷ [];
  version = pos 1;
}

-- The two stops are added to the session and not flushed.
unfoldable pub add_stops : Env → Shipment → Db (Unit {0})
add_stops env x = do
  origin_id ← draw_uuid env
  destination_id ← draw_uuid env
  add_stop (record {
    id = origin_id;
    shipment_id = x.id;
    sequence = 1;
    stop_type = StopType.pickup;
    address = x.origin_address;
  })
  add_stop (record {
    id = destination_id;
    shipment_id = x.id;
    sequence = 2;
    stop_type = StopType.delivery;
    address = x.destination_address;
  })

-- The rest of `generate_from_plan`, from the three objects that it looks up.
unfoldable pub generate_shipment : Env → FulfillmentPlan → Order → Warehouse → Db Shipment
generate_shipment env plan order warehouse = do
  shipment_number ← draw_uuid env
  now ← draw_now env
  id ← draw_uuid env
  add_shipment (new_shipment id now order warehouse)
  add_stops env (new_shipment id now order warehouse)
  put_plan (record plan { status = PlanStatus.executing })
  pure (new_shipment id now order warehouse)

unfoldable pub generate_from_plan : Env → ℕ → Db Shipment
generate_from_plan env plan_id = do
  plan ← get_plan plan_id
  order ← get_order plan.order_id
  warehouse ← get_warehouse plan.warehouse_id
  generate_shipment env plan order warehouse

-- One plan of `generate_for_order`: the shipment is planned at once.
unfoldable pub generate_planned : Env → ℕ → Db Shipment
generate_planned env plan_id = do
  x ← generate_from_plan env plan_id
  transition_state env x.id ShipmentStatus.planned

unfoldable pub generate_open : Env → List FulfillmentPlan → List Shipment → Db (List Shipment)
generate_open env [] shipments = pure shipments
generate_open env (plan ∷ plans) shipments =
    if is_open_plan plan.status
    then (do x ← generate_planned env plan.id; generate_open env plans (shipments ++ x ∷ []))
    else generate_open env plans shipments

unfoldable pub generate_for_order : Env → ℕ → Db (List Shipment)
generate_for_order env order_id = do
  plans ← gets (get_plans_for_order order_id)
  generate_open env plans []
