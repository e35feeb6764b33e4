-- ===== src/Tests/Samples.antt =====
-- A small warehouse network, an environment, and a FloatOps on the natural numbers.
use supply_chain_execution.Common.{[], false, ltb, none, some, true, ℕ, ◌*◌, ◌+◌, ◌∷◌}
use supply_chain_execution.Common.Int.{abs, pos}
use supply_chain_execution.Core.Float.{FloatOps}
use supply_chain_execution.Core.Types.{OrderStatus, ShipmentStatus}
use supply_chain_execution.Inventory.Allocation.{AllocationRequest}
use supply_chain_execution.Persistence.Models.Fulfillment.{
  FulfillmentPlan, Order, OrderLine, PlanStatus,
}
use supply_chain_execution.Persistence.Models.Inventory.{
  InventoryBalance, InventoryReservation, ReservationStatus, new_balance,
}
use supply_chain_execution.Persistence.Models.Transport.{Shipment}
use supply_chain_execution.Persistence.Models.Warehouse.{Warehouse}
use supply_chain_execution.Persistence.Session.{Env, Session}
use supply_chain_execution.Persistence.Table.{Row}

abbrev pub ops : FloatOps ℕ
ops = record {
  decimal = λ n d. n;
  of_int = λ n. abs n;
  add = λ a b. a + b;
  mul = λ a b. a * b;
  div = λ a b. a;
  less = λ a b. ltb a b;
}

abbrev pub env : Env
env = record { uuid4 = λ n. 1000 + n; now = λ n. pos n }

abbrev pub empty_session : Session
empty_session = record {
  balances = [];
  reservations = [];
  policies = [];
  warehouses = [];
  locations = [];
  tasks = [];
  transfers = [];
  purchase_orders = [];
  suppliers = [];
  events = [];
  audits = [];
  shipments = [];
  stops = [];
  carriers = [];
  route_plans = [];
  orders = [];
  plans = [];
  draws = 0;
}

abbrev pub stored_row : {R : Type 0} → R → Row R
stored_row r = record { stored = some r; current = r }

-- Twelve units of SKU 7 in warehouse 1.
abbrev pub stock : InventoryBalance
stock = record (new_balance 20 1 7) { on_hand = pos 12 }

abbrev pub warehouse : Warehouse
warehouse = record {
  id = 1;
  address = [];
  is_active = true;
  fulfillment_priority = pos 1;
  capacity_units = none;
}

abbrev pub stocked : Session
stocked = record empty_session {
  balances = stored_row stock ∷ [];
  warehouses = stored_row warehouse ∷ [];
}

abbrev pub request : AllocationRequest
request = record {
  order_id = 3;
  order_line_id = 4;
  sku_id = 7;
  quantity = pos 5;
  preferred_warehouse_id = none;
  allow_split = true;
}

-- Five of the units are held by a reservation.
abbrev pub reservation : InventoryReservation
reservation = record {
  id = 30;
  order_id = 3;
  order_line_id = 4;
  warehouse_id = 1;
  sku_id = 7;
  quantity = pos 5;
  status = ReservationStatus.active;
  expires_at = pos 1000;
}

abbrev pub held_stock : InventoryBalance
held_stock = record stock { reserved = pos 5 }

abbrev pub reserved_session : Session
reserved_session = record stocked {
  balances = stored_row held_stock ∷ [];
  reservations = stored_row reservation ∷ [];
}

-- A shipment of four kilograms, picked up at time 5.
abbrev pub shipment_of : ℕ → Shipment
shipment_of id = record {
  id = id;
  order_id = 3;
  warehouse_id = 1;
  carrier_id = none;
  status = ShipmentStatus.planned;
  origin_address = [];
  destination_address = ("state", "BW") ∷ ("postal_code", "70173") ∷ [];
  total_weight_kg = some (pos 40_000);
  total_packages = pos 1;
  scheduled_pickup = some (pos 5);
  scheduled_delivery = none;
  actual_delivery = none;
  consolidation_group_id = none;
  state_history = [];
  version = pos 1;
}

abbrev pub loaded : Session
loaded = record empty_session {
  shipments = stored_row (shipment_of 50) ∷ stored_row (shipment_of 51) ∷ [];
}

-- An order of five units of SKU 7.
abbrev pub order_line : OrderLine
order_line = record {
  id = 4;
  sku_id = 7;
  quantity_ordered = pos 5;
  quantity_allocated = pos 0;
  unit_price = pos 20_000;
  backorder_quantity = pos 0;
}

abbrev pub placed_order : Order
placed_order = record {
  id = 3;
  status = OrderStatus.received;
  ship_to_address = [];
  routing_strategy = "cost_optimized";
  allow_partial_fulfillment = true;
  lines = order_line ∷ [];
}

abbrev pub ordered_stock : Session
ordered_stock = record stocked { orders = stored_row placed_order ∷ [] }

abbrev pub fulfillment_plan : FulfillmentPlan
fulfillment_plan = record {
  id = 60;
  order_id = 3;
  warehouse_id = 1;
  status = PlanStatus.planned;
  estimated_cost = pos 60;
  line_coverage = [];
  strategy = "cost_optimized";
  is_partial = false;
}

abbrev pub planned_order : Session
planned_order = record ordered_stock { plans = stored_row fulfillment_plan ∷ [] }
