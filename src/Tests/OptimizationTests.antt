-- ===== src/Tests/OptimizationTests.antt =====
-- A placement plan and the cost of an order at concrete inputs.
use supply_chain_execution.Common.{All, [], refl, ℕ, ◌∷◌, ◌≡◌, ◌⊎◌}
use supply_chain_execution.Common.Int.{pos, sum_of, ◌+ℤ◌, ◌-ℤ◌, ◌<ℤ◌, ◌≤ℤ◌}
use supply_chain_execution.Core.Effect.{ok, raised}
use supply_chain_execution.Core.Exceptions.{multiple_results_found}
use supply_chain_execution.Optimization.Cost.{order_components, total_cost}
use supply_chain_execution.Optimization.Placement.{
  Imbalance, PlacementPlan, analyze_network, classify, classify_rows, empty_plan, fill_deficit,
  fill_deficits, rebalance, recommend, recommendation, take_units,
}
use supply_chain_execution.Optimization.Placement.Network.{AreNatural, analyze_network-within}
use supply_chain_execution.Optimization.Placement.Sources.{moved_units, taken_from}
use supply_chain_execution.Optimization.Placement.Visible.{visible}
use supply_chain_execution.Persistence.Models.Inventory.{new_balance}
use supply_chain_execution.Persistence.Queries.Inventory.{
  get_network_visibility, get_policy, group_rows,
}
use supply_chain_execution.Persistence.Session.{Session}
use supply_chain_execution.Persistence.Table.{select, select_columns}
use supply_chain_execution.Tests.Samples.{empty_session, env, placed_order, stock, stored_row}
use supply_chain_execution.Transportation.Carriers.{times_decimal}

-- Warehouses 1 and 2 have too much, 3 and 4 too little.
abbrev imbalance : Imbalance
imbalance = record {
  surplus = (1, pos 40) ∷ (2, pos 30) ∷ [];
  deficit = (3, pos 50) ∷ (4, pos 30) ∷ [];
}

-- The second target gets what the first left over.
four_moves :
    (rebalance 7 90 imbalance).recommendations
    ≡ recommendation 7 1 3 (pos 40)
      ∷ recommendation 7 2 3 (pos 10)
      ∷ recommendation 7 2 4 (pos 20)
      ∷ []
unfolding rebalance fill_deficits fill_deficit take_units ◌-ℤ◌ ◌+ℤ◌
four_moves = refl

-- Warehouse 1 has 120 units of SKU 7, warehouse 2 only 5, and neither has a policy.
abbrev uneven : Session
uneven = record empty_session {
  balances =
      stored_row (record stock { on_hand = pos 120 })
      ∷ stored_row (record (new_balance 21 2 7) { on_hand = pos 5 })
      ∷ [];
}

moves_the_surplus :
    (analyze_network env 7 uneven).0
    ≡ ok (
        recommend
          (recommendation 7 1 2 (pos 45))
          (record (empty_plan 1000) { execution_priority = 4 }))
unfolding analyze_network get_network_visibility group_rows select_columns classify_rows classify
    get_policy select rebalance fill_deficits fill_deficit take_units ◌-ℤ◌ ◌+ℤ◌
moves_the_surplus = refl

uneven-AreNatural : AreNatural 7 uneven
unfolding get_policy select
uneven-AreNatural w p = λ e. absurd (cc)

analyze_network-within_example :
    ((analyze_network env 7 uneven).0 ≡ raised multiple_results_found)
    ⊎ ((plan : PlacementPlan) × ((analyze_network env 7 uneven).0 ≡ ok plan)
        × ((w : ℕ)
            → taken_from w plan.recommendations ≤ℤ visible w (get_network_visibility 7 uneven))
        × All (λ x. pos 0 <ℤ x.quantity) plan.recommendations
        × (plan.total_units_moved ≡ sum_of moved_units plan.recommendations))
analyze_network-within_example = analyze_network-within env 7 uneven uneven-AreNatural

-- Five units at 2.00 are 10.00; with picking, packing, storage and shipping 29.80.
order_total :
    total_cost (record { reference_id = 3; components = order_components placed_order })
    ≡ pos 298_000
unfolding total_cost order_components times_decimal ◌+ℤ◌
order_total = refl
