-- ===== src/Fulfillment/Planning.antt =====
-- src/nexusops/domain/fulfillment/planning.py. The workflow context only feeds the log and the
-- details of an error, so of it the drawn id is kept. The order's object is threaded through, and
-- stored at each assignment.
pub mod Filling
pub mod Safety
use supply_chain_execution.Common.{
  Bool, List, Option, [], false, if◌then◌else◌, none, not, some, true, ℕ, ◌&&◌, ◌*◌, ◌++◌, ◌||◌,
  ◌∷◌,
}
use supply_chain_execution.Common.Int.{leb_ℤ, ltb_ℤ, pos, ℤ, ◌+ℤ◌}
use supply_chain_execution.Core.Effect.{catch, or_raise, pure, raise, raise_if, ◌>>=◌, ◌>>◌}
use supply_chain_execution.Core.Exceptions.{workflow_error}
use supply_chain_execution.Core.Float.{FloatOps}
use supply_chain_execution.Core.Types.{OrderStatus, same_order}
use supply_chain_execution.Fulfillment.Routing.{route_order, still_needed}
use supply_chain_execution.Inventory.Allocation.{
  AllocationRequest, AllocationResult, release_reservations,
}
use supply_chain_execution.Inventory.Allocation.Engine.{allocate}
use supply_chain_execution.Persistence.Models.Fulfillment.{Order, OrderLine}
use supply_chain_execution.Persistence.Queries.Fulfillment.{
  get_order, get_order_with_lines, put_order,
}
use supply_chain_execution.Persistence.Session.{Db, Env, draw_now, draw_uuid, minute}

pub record FulfillmentLinePlan : Type 0 where
  pub order_line_id : ℕ
  pub sku_id : ℕ
  pub quantity_planned : ℤ
  pub warehouse_id : ℕ
  pub reservation_id : Option ℕ

pub record FulfillmentPlanResult : Type 0 where
  pub order_id : ℕ
  pub status : OrderStatus
  pub lines : List FulfillmentLinePlan
  pub is_partial : Bool
  pub backorder_lines : List ℕ
  pub planned_ship_date : Option ℤ
  pub workflow_id : Option ℕ

abbrev pub set_status : OrderStatus → Order → Order
set_status status order = record order { status = status }

-- `order.status in (SHIPPED, DELIVERED, CANCELLED)`
abbrev pub is_terminal : OrderStatus → Bool
is_terminal status =
    same_order status OrderStatus.shipped
    || same_order status OrderStatus.delivered
    || same_order status OrderStatus.cancelled

abbrev pub has_no_lines : List OrderLine → Bool
has_no_lines [] = true
has_no_lines (line ∷ lines) = false

-- `_validate_order`, of an order that is there.
unfoldable pub check_order : Order → Db Order
check_order order = do
  raise_if (has_no_lines order.lines) workflow_error
  raise_if (is_terminal order.status) workflow_error
  put_order (set_status OrderStatus.validating order)
  pure (set_status OrderStatus.validating order)

unfoldable pub validate_order : ℕ → Db Order
validate_order order_id = do
  found ← get_order_with_lines order_id
  order ← or_raise found workflow_error
  check_order order

-- The assignments to a line that was allocated.
abbrev pub allocate_line : AllocationResult → OrderLine → OrderLine
allocate_line r line = record line {
  quantity_allocated = line.quantity_allocated +ℤ r.total_allocated;
  backorder_quantity = r.backorder_quantity;
}

abbrev pub request_for : Order → OrderLine → ℕ → AllocationRequest
request_for order line warehouse = record {
  order_id = order.id;
  order_line_id = line.id;
  sku_id = line.sku_id;
  quantity = still_needed line;
  preferred_warehouse_id = some warehouse;
  allow_split = order.allow_partial_fulfillment;
}

-- The lines that were visited and those to come, and the results.
pub record Allocating : Type 0 where
  pub visited : List OrderLine
  pub results : List AllocationResult

abbrev pub skip_line : OrderLine → Allocating → Allocating
skip_line line a = record a { visited = a.visited ++ line ∷ [] }

abbrev pub with_lines : List OrderLine → Order → Order
with_lines lines order = record order { lines = lines }

unfoldable pub keep_result :
    Order → OrderLine → List OrderLine → Allocating → AllocationResult → Db Allocating
keep_result order line rest a r = do
  put_order (with_lines (a.visited ++ allocate_line r line ∷ rest) order)
  pure (record { visited = a.visited ++ allocate_line r line ∷ []; results = a.results ++ r ∷ [] })

module _ {F : Type 0} (ops : FloatOps F) (env : Env) where
  -- The body of the loops: any exception is logged and forgotten.
  unfoldable pub allocate_one : Order → ℕ → OrderLine → List OrderLine → Allocating → Db Allocating
  allocate_one order warehouse line rest a =
      if leb_ℤ (still_needed line) (pos 0)
      then pure (skip_line line a)
      else catch
          (do
            r ← allocate ops env (request_for order line warehouse)
            keep_result order line rest a r)
          (λ e. pure (skip_line line a))

  unfoldable pub allocate_lines : Order → ℕ → List OrderLine → Allocating → Db Allocating
  allocate_lines order warehouse [] a = pure a
  allocate_lines order warehouse (line ∷ lines) a = do
    a' ← allocate_one order warehouse line lines a
    allocate_lines order warehouse lines a'

  -- `_allocate_inventory`
  unfoldable pub allocate_inventory :
      Order
      → List ℕ
      → List OrderLine
      → List AllocationResult
      → Db (List OrderLine × List AllocationResult)
  allocate_inventory order [] lines results = pure (lines, results)
  allocate_inventory order (warehouse ∷ warehouses) lines results = do
    a ← allocate_lines order warehouse lines (record { visited = []; results = results })
    allocate_inventory order warehouses a.visited a.results

abbrev pub first_id : List ℕ → Option ℕ
first_id [] = none
first_id (id ∷ ids) = some id

-- The lines of one allocation result. The source gives each the nil UUID for its SKU.
unfoldable pub line_plans : ℕ → Option ℕ → List (ℕ × ℤ) → List FulfillmentLinePlan
line_plans line reservation [] = []
line_plans line reservation ((warehouse, quantity) ∷ rest) =
    record {
      order_line_id = line;
      sku_id = 0;
      quantity_planned = quantity;
      warehouse_id = warehouse;
      reservation_id = reservation;
    }
    ∷ line_plans line reservation rest

abbrev pub plan_allocation : AllocationResult → FulfillmentPlanResult → FulfillmentPlanResult
plan_allocation r plan =
    let partial = ltb_ℤ (pos 0) r.backorder_quantity in
    record plan {
      lines = plan.lines ++ line_plans r.order_line_id (first_id r.reservation_ids) r.allocations;
      is_partial = plan.is_partial || partial;
      backorder_lines =
          if partial then plan.backorder_lines ++ r.order_line_id ∷ [] else plan.backorder_lines;
    }

unfoldable pub plan_allocations :
    List AllocationResult → FulfillmentPlanResult → FulfillmentPlanResult
plan_allocations [] plan = plan
plan_allocations (r ∷ rs) plan = plan_allocations rs (plan_allocation r plan)

abbrev pub two_days : ℕ
two_days = 2 * (24 * (60 * minute))

-- `_build_plan`
unfoldable pub build_plan : Env → ℕ → List AllocationResult → Db FulfillmentPlanResult
build_plan env order_id results = do
  now ← draw_now env
  pure (
      plan_allocations results (record {
        order_id = order_id;
        status = OrderStatus.fulfillment_planned;
        lines = [];
        is_partial = false;
        backorder_lines = [];
        planned_ship_date = some (now +ℤ pos two_days);
        workflow_id = none;
      }))

-- `_update_order_status`
abbrev pub status_after : FulfillmentPlanResult → OrderStatus
status_after result =
    if result.is_partial then OrderStatus.partially_allocated else OrderStatus.fulfillment_planned

module _ {F : Type 0} (ops : FloatOps F) (env : Env) where
  -- The `try` block of `plan_fulfillment`, from the validated order on.
  unfoldable pub plan_order : ℕ → ℕ → Order → Db FulfillmentPlanResult
  plan_order workflow_id order_id order = do
    routing ← route_order ops env order_id order.routing_strategy
    allocated ← allocate_inventory ops env order routing.selected_warehouses order.lines []
    result ← build_plan env order_id (allocated.1)
    put_order (set_status (status_after result) (with_lines (allocated.0) order))
    pure (record result { workflow_id = some workflow_id })

  unfoldable pub plan_fulfillment : ℕ → Db FulfillmentPlanResult
  plan_fulfillment order_id = do
    workflow_id ← draw_uuid env
    catch (do order ← validate_order order_id; plan_order workflow_id order_id order)
        (λ e. raise workflow_error)

  unfoldable pub handle_partial_fulfillment : ℕ → Bool → Db FulfillmentPlanResult
  handle_partial_fulfillment order_id accept_partial = do
    result ← plan_fulfillment order_id
    if result.is_partial && not accept_partial
        then (do
          release_reservations order_id
          order ← get_order order_id
          put_order (set_status OrderStatus.backordered order)
          raise workflow_error)
        else pure result
