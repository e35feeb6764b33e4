-- ===== src/Optimization/Placement.antt =====
-- src/nexusops/domain/optimization/placement.py: `analyze_network`. Money is in cents; the constant
-- `fill_rate_improvement` and the reason of a recommendation are left out.
pub mod Sources
pub mod Moves
pub mod Visible
pub mod Split
pub mod Network
use supply_chain_execution.Common.{
  List, Option, [], if◌then◌else◌, length, ltb, none, some, ℕ, ◌++◌, ◌==◌, ◌||◌, ◌∷◌,
}
use supply_chain_execution.Common.Int.{leb_ℤ, ltb_ℤ, min_ℤ, pos, ℤ, ◌+ℤ◌, ◌-ℤ◌}
use supply_chain_execution.Core.Effect.{gets, pure, ◌>>=◌, ◌>>◌}
use supply_chain_execution.Fulfillment.Routing.{times}
use supply_chain_execution.Fulfillment.Shipments.{moved}
use supply_chain_execution.Persistence.Models.Inventory.{SafetyStockPolicy, available}
use supply_chain_execution.Persistence.Queries.Inventory.{
  Visibility, get_network_visibility, get_policy,
}
use supply_chain_execution.Persistence.Session.{Db, Env, draw_uuid}

pub record PlacementRecommendation : Type 0 where
  pub sku_id : ℕ
  pub source_warehouse_id : ℕ
  pub target_warehouse_id : ℕ
  pub quantity : ℤ
  pub estimated_cost_savings : ℤ

pub record PlacementPlan : Type 0 where
  pub plan_id : ℕ
  pub recommendations : List PlacementRecommendation
  pub total_units_moved : ℤ
  pub total_savings : ℤ
  pub execution_priority : ℕ

-- Warehouses with a number of units.
abbrev pub Units : Type 0
Units = List (ℕ × ℤ)

abbrev pub transfer_cost_per_unit : ℕ
transfer_cost_per_unit = 50

abbrev pub stockout_penalty : ℤ
stockout_penalty = pos 2_500

abbrev pub reorder_of : Option SafetyStockPolicy → ℤ
reorder_of none = pos 50
reorder_of (some p) = p.reorder_point

abbrev pub safety_of : Option SafetyStockPolicy → ℤ
safety_of none = pos 25
safety_of (some p) = p.safety_stock_qty

-- The lists `surplus` and `deficit`.
pub record Imbalance : Type 0 where
  pub surplus : Units
  pub deficit : Units

-- One row of the visibility, against its reorder point and safety stock.
unfoldable pub classify : ℕ → ℤ → ℤ → ℤ → Imbalance → Imbalance
classify w available reorder safety i =
    if ltb_ℤ (reorder +ℤ (safety +ℤ safety)) available
    then record i { surplus = i.surplus ++ (w, available -ℤ reorder -ℤ safety) ∷ [] }
    else if ltb_ℤ available reorder
    then record i { deficit = i.deficit ++ (w, reorder -ℤ available) ∷ [] }
    else i

unfoldable pub classify_rows : ℕ → List Visibility → Imbalance → Db Imbalance
classify_rows sku [] i = pure i
classify_rows sku (row ∷ rows) i = do
  policy ← get_policy row.warehouse_id sku
  classify_rows sku rows
      (classify row.warehouse_id row.available (reorder_of policy) (safety_of policy) i)

abbrev pub recommendation : ℕ → ℕ → ℕ → ℤ → PlacementRecommendation
recommendation sku source target quantity = record {
  sku_id = sku;
  source_warehouse_id = source;
  target_warehouse_id = target;
  quantity = quantity;
  estimated_cost_savings = stockout_penalty -ℤ times transfer_cost_per_unit quantity;
}

abbrev pub recommend : PlacementRecommendation → PlacementPlan → PlacementPlan
recommend r plan = record plan {
  recommendations = plan.recommendations ++ r ∷ [];
  total_units_moved = plan.total_units_moved +ℤ r.quantity;
  total_savings = plan.total_savings +ℤ r.estimated_cost_savings;
}

-- `[(w, q - transfer_qty if w == sur_wh else q) for w, q in surplus]`
unfoldable pub take_units : ℕ → ℤ → Units → Units
take_units source quantity [] = []
take_units source quantity ((w, q) ∷ rest) =
    (w, if w == source then q -ℤ quantity else q) ∷ take_units source quantity rest

-- The variables of the loops: `surplus` is made anew, while the inner loop walks the old list.
pub record Rebalancing : Type 0 where
  pub plan : PlacementPlan
  pub surplus : Units

-- The inner loop, over the surplus that it started with.
unfoldable pub fill_deficit : ℕ → ℕ → ℤ → Units → Rebalancing → Rebalancing
fill_deficit sku target needed [] r = r
fill_deficit sku target needed ((source, q) ∷ rest) r =
    let quantity = min_ℤ needed q in
    let skipped = fill_deficit sku target needed rest r in
    let moved = fill_deficit sku target (needed -ℤ quantity) rest (record {
      plan = recommend (recommendation sku source target quantity) r.plan;
      surplus = take_units source quantity r.surplus;
    }) in
    if leb_ℤ q (pos 0) || leb_ℤ quantity (pos 0) then skipped else moved

unfoldable pub fill_deficits : ℕ → Units → Rebalancing → Rebalancing
fill_deficits sku [] r = r
fill_deficits sku ((target, needed) ∷ rest) r =
    fill_deficits sku rest (fill_deficit sku target needed r.surplus r)

abbrev pub priority_for : ℤ → ℕ
priority_for moved = if ltb_ℤ (pos 100) moved then 2 else if ltb_ℤ (pos 0) moved then 4 else 5

abbrev pub empty_plan : ℕ → PlacementPlan
empty_plan id = record {
  plan_id = id;
  recommendations = [];
  total_units_moved = pos 0;
  total_savings = pos 0;
  execution_priority = 5;
}

unfoldable pub rebalance : ℕ → ℕ → Imbalance → PlacementPlan
rebalance sku plan_id i =
    let r =
      fill_deficits sku i.deficit (record { plan = empty_plan plan_id; surplus = i.surplus }) in
    record (r.plan) { execution_priority = priority_for r.plan.total_units_moved }

unfoldable pub analyze_network : Env → ℕ → Db PlacementPlan
analyze_network env sku = do
  id ← draw_uuid env
  visibility ← gets (get_network_visibility sku)
  if ltb (length visibility) 2 then pure (empty_plan id) else (do
    imbalance ← classify_rows sku visibility (record { surplus = []; deficit = [] })
    pure (rebalance sku id imbalance))
