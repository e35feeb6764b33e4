-- ===== src/Tests/FulfillmentTests.antt =====
-- Routing, planning and the generation of shipments at concrete inputs.
use supply_chain_execution.Common.{
  All, List, [], arith, insert_sorted, length, refl, sort_into, sorted, true, ℕ, ◌∷◌, ◌≡◌, ◌⊎◌,
}
use supply_chain_execution.Common.Int.{pos, sum_of, ℤ, ◌+ℤ◌, ◌-ℤ◌}
use supply_chain_execution.Core.Effect.{ok, raised}
use supply_chain_execution.Core.Exceptions.{workflow_error}
use supply_chain_execution.Fulfillment.Generation.{generate_for_order, generate_shipment}
use supply_chain_execution.Fulfillment.Generation.Draft.{generate_for_order-AllTracked}
use supply_chain_execution.Fulfillment.Generation.Stops.{generate_shipment-stops}
use supply_chain_execution.Fulfillment.Planning.{
  FulfillmentPlanResult, allocate_inventory, plan_fulfillment,
}
use supply_chain_execution.Fulfillment.Planning.Filling.{
  IsFilled, allocate_inventory-IsFilled, allocated_by, units_allocated,
}
use supply_chain_execution.Fulfillment.Planning.Safety.{plan_fulfillment-IsSolvent}
use supply_chain_execution.Fulfillment.Routing.{RoutingCandidate, select_warehouses}
use supply_chain_execution.Fulfillment.Shipments.Trail.{AllTracked}
use supply_chain_execution.Inventory.Allocation.{AllocationResult}
use supply_chain_execution.Inventory.Allocation.Solvency.{IsSolvent}
use supply_chain_execution.Persistence.Models.Fulfillment.{OrderLine}
use supply_chain_execution.Persistence.Models.Transport.{Shipment}
use supply_chain_execution.Persistence.Queries.Transport.{stops_of}
use supply_chain_execution.Persistence.Session.{Session}
use supply_chain_execution.Persistence.Table.{objects}
use supply_chain_execution.Tests.Samples.{
  env, fulfillment_plan, ops, order_line, ordered_stock, placed_order, planned_order, warehouse,
}

abbrev candidate : ℕ → ℤ → RoutingCandidate
candidate id cost = record {
  warehouse_id = id;
  total_available = pos 5;
  fulfillment_cost = cost;
  transit_days = pos 3;
  priority = pos 1;
  can_fulfill_all = true;
  line_coverage = [];
}

abbrev three : List RoutingCandidate
three = candidate 1 (pos 70) ∷ candidate 2 (pos 60) ∷ candidate 3 (pos 90) ∷ []

two_cheapest :
    select_warehouses three "cost_optimized" true ≡ candidate 2 (pos 60) ∷ candidate 1 (pos 70) ∷ []
unfolding select_warehouses sorted sort_into insert_sorted
two_cheapest = refl

allocate_inventory-IsFilled_example :
    (lines' : List OrderLine) × (results : List AllocationResult) × (s' : Session)
    × (allocate_inventory ops env placed_order (1 ∷ []) (order_line ∷ []) [] ordered_stock
        ≡ (ok (lines', results), s'))
    × All IsFilled lines'
    × (sum_of units_allocated lines'
        ≡ sum_of units_allocated (order_line ∷ []) +ℤ sum_of allocated_by results)
allocate_inventory-IsFilled_example =
    allocate_inventory-IsFilled ops env placed_order (1 ∷ []) (order_line ∷ []) ordered_stock
      (omega arith, tt)

plan_fulfillment-IsSolvent_example :
    IsSolvent (plan_fulfillment ops env 3 ordered_stock).1
    × (((plan_fulfillment ops env 3 ordered_stock).0 ≡ raised workflow_error)
        ⊎ ((result : FulfillmentPlanResult) × ((plan_fulfillment ops env 3 ordered_stock).0
              ≡ ok result)))
unfolding ◌-ℤ◌
plan_fulfillment-IsSolvent_example =
    plan_fulfillment-IsSolvent ops env 3 ordered_stock (omega arith, tt)

generate_for_order-AllTracked_example : AllTracked (generate_for_order env 3 planned_order).1
generate_for_order-AllTracked_example = generate_for_order-AllTracked env 3 planned_order tt

generate_shipment-stops_example :
    (x : Shipment) × ((generate_shipment env fulfillment_plan placed_order warehouse
        planned_order).0
      ≡ ok x)
    × (x.id ≡ 1002)
    × (stops_of 1002 (generate_shipment env fulfillment_plan placed_order warehouse planned_order).1
        ≡ [])
    × (length (
          objects
            (generate_shipment env fulfillment_plan placed_order warehouse planned_order).1.stops)
        ≡ 2)
generate_shipment-stops_example =
    generate_shipment-stops env fulfillment_plan placed_order warehouse planned_order tt
