-- ===== src/Fulfillment/Workflow.antt =====
-- src/nexusops/domain/fulfillment/workflow.py. The object keeps a dependency graph beside the
-- session; the context is that of core/context.py, whose steps are numbers here.
pub mod Failure
use supply_chain_execution.Common.{Bool, List, String, [], if◌then◌else◌, none, some, ℕ, ◌||◌, ◌∷◌}
use supply_chain_execution.Core.Dependencies.{
  DependencyGraph, Networkx, NodeType, add_node, validate_no_cycles,
}
use supply_chain_execution.Core.Effect.{
  Action, Result, catch, ok, or_raise, pure, raise, raise_if, raised, ◌>>=◌, ◌>>◌,
}
use supply_chain_execution.Core.Exceptions.{workflow_error}
use supply_chain_execution.Core.Types.{EventType, OrderStatus, ShipmentStatus, same_order}
use supply_chain_execution.Core.Workflow.{WorkflowContext, has_step, mark_step_complete}
use supply_chain_execution.Events.Bus.{EventBus, publish}
use supply_chain_execution.Fulfillment.Generation.{generate_for_order}
use supply_chain_execution.Fulfillment.Planning.{
  FulfillmentPlanResult, plan_fulfillment, set_status,
}
use supply_chain_execution.Inventory.Allocation.{release_reservations}
use supply_chain_execution.Persistence.Models.Events.{Json, Payload}
use supply_chain_execution.Persistence.Models.Fulfillment.{Order}
use supply_chain_execution.Persistence.Models.Transport.{Shipment}
use supply_chain_execution.Persistence.Queries.Fulfillment.{
  get_order, get_order_with_lines, put_order,
}
use supply_chain_execution.Persistence.Session.{Db, Env, Session, draw_now}
use supply_chain_execution.Transportation.Carriers.{assign_carrier}
use supply_chain_execution.Transportation.Routes.{Geography}
use supply_chain_execution.Transportation.Routes.Plans.{plan_routes}

-- The names of the steps.
abbrev pub validate_name : ℕ
validate_name = 0

abbrev pub plan_name : ℕ
plan_name = 1

abbrev pub allocate_name : ℕ
allocate_name = 2

abbrev pub generate_shipments_name : ℕ
generate_shipments_name = 3

abbrev pub plan_routes_name : ℕ
plan_routes_name = 4

abbrev pub assign_carriers_name : ℕ
assign_carriers_name = 5

abbrev pub finalize_name : ℕ
finalize_name = 6

pub record Running : Type 0 where
  pub ctx : WorkflowContext
  pub graph : DependencyGraph
  pub db : Session

abbrev pub on_db : {A : Type 0} → Db A → Action Running A
on_db m s = let (r, db') = m s.db in (r, record s { db = db' })

abbrev pub mark : ℕ → Action Running (Unit {0})
mark name s = (ok tt, record s { ctx = mark_step_complete name s.ctx })

abbrev pub track : ℕ → NodeType → String → Action Running (Unit {0})
track id kind status s =
    (ok tt, record s { graph = add_node id (record { node_type = kind; status = status }) s.graph })

-- The values of the enumerations.
unfoldable pub order_status_value : OrderStatus → String
order_status_value OrderStatus.received = "received"
order_status_value OrderStatus.validating = "validating"
order_status_value OrderStatus.allocating = "allocating"
order_status_value OrderStatus.partially_allocated = "partially_allocated"
order_status_value OrderStatus.fulfillment_planned = "fulfillment_planned"
order_status_value OrderStatus.picking = "picking"
order_status_value OrderStatus.packed = "packed"
order_status_value OrderStatus.shipped = "shipped"
order_status_value OrderStatus.delivered = "delivered"
order_status_value OrderStatus.cancelled = "cancelled"
order_status_value OrderStatus.backordered = "backordered"

unfoldable pub shipment_status_value : ShipmentStatus → String
shipment_status_value ShipmentStatus.draft = "draft"
shipment_status_value ShipmentStatus.planned = "planned"
shipment_status_value ShipmentStatus.consolidated = "consolidated"
shipment_status_value ShipmentStatus.label_generated = "label_generated"
shipment_status_value ShipmentStatus.in_transit = "in_transit"
shipment_status_value ShipmentStatus.out_for_delivery = "out_for_delivery"
shipment_status_value ShipmentStatus.delivered = "delivered"
shipment_status_value ShipmentStatus.exception = "exception"
shipment_status_value ShipmentStatus.cancelled = "cancelled"

-- `if self.event_bus: await self.event_bus.publish(...)`
unfoldable pub publish_if : Env → EventBus → EventType → String → ℕ → Payload → Db (Unit {0})
publish_if env none kind aggregate id payload = pure tt
publish_if env (some redis) kind aggregate id payload = do
  occurred ← draw_now env
  publish env redis (record {
    event_type = kind;
    aggregate_type = aggregate;
    aggregate_id = id;
    payload = payload;
    occurred_at = occurred;
  })
  pure tt

-- `order.status in (CANCELLED, DELIVERED)`
abbrev pub is_over : OrderStatus → Bool
is_over status = same_order status OrderStatus.cancelled || same_order status OrderStatus.delivered

-- `_step_validate`, of an order that is there.
unfoldable pub accept_order : Order → Action Running Order
accept_order order = do
  raise_if (is_over order.status) workflow_error
  track order.id NodeType.order (order_status_value order.status)
  mark validate_name
  pure order

unfoldable pub step_validate : ℕ → Action Running Order
step_validate order_id = do
  found ← on_db (get_order_with_lines order_id)
  order ← or_raise found workflow_error
  accept_order order

-- The loop that publishes each shipment.
unfoldable pub publish_shipments : Env → EventBus → ℕ → List Shipment → Db (Unit {0})
publish_shipments env bus order_id [] = pure tt
publish_shipments env bus order_id (x ∷ xs) = do
  publish_if env bus EventType.shipment_created "shipment" x.id
      (("order_id", Json.uuid order_id) ∷ [])
  publish_shipments env bus order_id xs

unfoldable pub step_generate_shipments : Env → EventBus → ℕ → Action Running (List Shipment)
step_generate_shipments env bus order_id = do
  shipments ← on_db (generate_for_order env order_id)
  mark generate_shipments_name
  on_db (publish_shipments env bus order_id shipments)
  pure shipments

-- The order's object has the attributes that planning gave it.
unfoldable pub step_finalize : Order → Action Running Order
step_finalize order = do
  current ← on_db (get_order order.id)
  on_db (put_order (set_status OrderStatus.fulfillment_planned current))
  mark plan_routes_name
  mark assign_carriers_name
  mark finalize_name
  pure (set_status OrderStatus.fulfillment_planned current)

unfoldable pub compensate_order : ℕ → Action Running (Unit {0})
compensate_order order_id s =
    if has_step allocate_name s.ctx.steps_completed
    then (on_db (release_reservations order_id) >> pure tt) s
    else (ok tt, s)

abbrev pub all_steps : List ℕ
all_steps =
    validate_name ∷ plan_name ∷ allocate_name ∷ generate_shipments_name ∷ plan_routes_name
    ∷ assign_carriers_name ∷ finalize_name ∷ []

abbrev pub begun : DependencyGraph → Session → Running
begun graph db = record {
  ctx = record { steps_completed = []; steps_pending = all_steps };
  graph = graph;
  db = db;
}

module _ {F : Type 0} (geo : Geography F) (nx : Networkx) (max_stops : ℕ) (env : Env)
    (bus : EventBus) where
  unfoldable pub step_plan : ℕ → Action Running FulfillmentPlanResult
  step_plan order_id = do
    result ← on_db (plan_fulfillment geo.floats.ops env order_id)
    mark plan_name
    on_db (
        publish_if env bus EventType.fulfillment_planned "order" order_id (
          ("status", Json.str (order_status_value result.status))
          ∷ ("is_partial", Json.flag result.is_partial)
          ∷ []))
    pure result

  unfoldable pub step_shipment : Shipment → Action Running (Unit {0})
  step_shipment x = do
    track x.id NodeType.shipment (shipment_status_value x.status)
    on_db (plan_routes geo max_stops env x.id)
    on_db (assign_carrier geo.floats x.id)
    pure tt

  unfoldable pub step_shipments : List Shipment → Action Running (Unit {0})
  step_shipments [] = pure tt
  step_shipments (x ∷ xs) = do step_shipment x; step_shipments xs

  abbrev pub check_graph : Action Running (Unit {0})
  check_graph s = elim (validate_no_cycles nx s.graph) [
    | none ↦ (ok tt, s)
    | some e ↦ (raised e, s)
  ]

  -- The `try` block of `execute`.
  unfoldable pub run_fulfillment : ℕ → Action Running OrderStatus
  run_fulfillment order_id = do
    order ← step_validate order_id
    step_plan order_id
    mark allocate_name
    shipments ← step_generate_shipments env bus order_id
    step_shipments shipments
    check_graph
    final ← step_finalize order
    pure final.status

  -- `execute`, from the graph that the object has kept: the order's status, or WorkflowError.
  unfoldable pub execute_fulfillment : ℕ → DependencyGraph → Session → Result OrderStatus × Running
  execute_fulfillment order_id graph db =
      catch (run_fulfillment order_id) (λ e. compensate_order order_id >> raise workflow_error)
        (begun graph db)
