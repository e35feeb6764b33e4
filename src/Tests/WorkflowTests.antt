-- ===== src/Tests/WorkflowTests.antt =====
-- A workflow whose event bus fails once the plan is made.
use supply_chain_execution.Common.{[], map, none, refl, some, sorted, true, ℕ, ◌∷◌, ◌≡◌}
use supply_chain_execution.Common.Int.{abs, pos, ◌+ℤ◌, ◌-ℤ◌}
use supply_chain_execution.Core.Dependencies.{DependencyGraph, Networkx}
use supply_chain_execution.Core.Effect.{Result, ok, raised}
use supply_chain_execution.Core.Exceptions.{foreign, workflow_error}
use supply_chain_execution.Events.Bus.{EventBus, publish, publish_to_stream}
use supply_chain_execution.Fulfillment.Planning.{
  FulfillmentPlanResult, allocate_inventory, allocate_lines, allocate_one, build_plan, check_order,
  keep_result, plan_fulfillment, plan_order, validate_order,
}
use supply_chain_execution.Fulfillment.Routing.{
  candidates_among, compute_routing_score, cover_lines, create_fulfillment_plans, create_plan,
  evaluate_candidates, route_order, route_with, select_warehouses,
}
use supply_chain_execution.Fulfillment.Workflow.{
  Running, accept_order, begun, execute_fulfillment, publish_if, step_plan, step_validate,
}
use supply_chain_execution.Fulfillment.Workflow.Failure.{execute_fulfillment-unreleased}
use supply_chain_execution.Inventory.Allocation.{
  apply_allocation, create_reservation, reserve_found,
}
use supply_chain_execution.Inventory.Allocation.Engine.{
  allocate, allocate_from, take_from, try_warehouse,
}
use supply_chain_execution.Inventory.Allocation.Ranking.{order_scores, rank_warehouses}
use supply_chain_execution.Persistence.Models.Fulfillment.{Order}
use supply_chain_execution.Persistence.Models.Inventory.{ReservationStatus, available}
use supply_chain_execution.Persistence.Queries.Events.{add_event}
use supply_chain_execution.Persistence.Queries.Fulfillment.{
  add_plan, get_active_plan, get_order_with_lines, put_order,
}
use supply_chain_execution.Persistence.Queries.Inventory.{
  add_reservation, get_aggregated_available, get_balance, put_balance,
}
use supply_chain_execution.Persistence.Queries.Warehouse.{list_active}
use supply_chain_execution.Persistence.Session.{flush_all}
use supply_chain_execution.Persistence.Table.{add, flush, objects, put, select, select_columns}
use supply_chain_execution.Tests.Samples.{env, ops, ordered_stock, placed_order}
use supply_chain_execution.Transportation.Carriers.{Floats}
use supply_chain_execution.Transportation.Routes.{Geography}

abbrev broken_bus : EventBus
broken_bus = some (some (λ e. raised (foreign 2)))

abbrev floats : Floats ℕ
floats = record {
  ops = ops;
  of_decimal = λ n d. abs n;
  quotient = λ a b. abs a;
  sub = λ a b. a;
  truncate = λ a. pos a;
}

abbrev geography : Geography ℕ
geography = record {
  floats = floats;
  latitude = λ a. 0;
  longitude = λ a. 0;
  radians = λ a. a;
  sin = λ a. a;
  cos = λ a. a;
  sqrt = λ a. a;
  atan2 = λ a b. a;
  round2 = λ a. pos a;
  greedy_tsp = λ g. none;
}

abbrev networkx : Networkx
networkx = record { is_acyclic = λ e. true; ancestors = λ n e. []; topological_sort = λ g. [] }

abbrev no_graph : DependencyGraph
no_graph = record { nodes = []; edges = [] }

abbrev accepted : Result Order × Running
accepted = step_validate 3 (begun no_graph ordered_stock)

abbrev failed : Result FulfillmentPlanResult × Running
failed = step_plan geography networkx 3 env broken_bus 3 (accepted.1)

accepts_the_order : accepted ≡ (ok placed_order, accepted.1)
unfolding accept_order step_validate select get_order_with_lines
accepts_the_order = refl

-- The step raises, and the reservation that it made is active.
fails_after_reserving :
    (failed ≡ (raised (foreign 2), failed.1))
    × (map (λ r. r.status) (objects failed.1.db.reservations) ≡ ReservationStatus.active ∷ [])
unfolding publish_to_stream publish publish_if step_plan check_order validate_order keep_result
    allocate_one allocate_lines allocate_inventory build_plan plan_order plan_fulfillment
    cover_lines candidates_among evaluate_candidates select_warehouses create_plan
    create_fulfillment_plans compute_routing_score route_with route_order sorted ◌+ℤ◌ ◌-ℤ◌ flush_all
    select select_columns flush put add available get_balance get_aggregated_available put_balance
    add_reservation get_order_with_lines put_order add_plan get_active_plan list_active add_event
    create_reservation reserve_found apply_allocation take_from try_warehouse allocate_from allocate
    rank_warehouses order_scores accept_order step_validate
fails_after_reserving = (refl, refl)

execute_fulfillment-unreleased_example :
    execute_fulfillment geography networkx 3 env broken_bus 3 no_graph ordered_stock
    ≡ (raised workflow_error, failed.1)
execute_fulfillment-unreleased_example =
    execute_fulfillment-unreleased geography networkx 3 env broken_bus 3 no_graph ordered_stock
      placed_order (accepted.1) (failed.1) (foreign 2) accepts_the_order (fails_after_reserving.0)
