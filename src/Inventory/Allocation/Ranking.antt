-- ===== src/Inventory/Allocation/Ranking.antt =====
-- `_rank_warehouses` of allocation.py and the preference sort at the head of `allocate`. Scores
-- are floats, behind the interface of Core/Float.
use supply_chain_execution.Common.{
  Bool, List, Option, false, if◌then◌else◌, map, none, some, sorted, true, ℕ, ◌==◌,
}
use supply_chain_execution.Common.Int.{max_ℤ, pos, ℤ}
use supply_chain_execution.Core.Float.{FloatOps}
use supply_chain_execution.Persistence.Models.Warehouse.{Warehouse}
use supply_chain_execution.Persistence.Queries.Inventory.{get_aggregated_available}
use supply_chain_execution.Persistence.Queries.Warehouse.{list_active}
use supply_chain_execution.Persistence.Session.{Session}

pub record WarehouseScore (F : Type 0) : Type 0 where
  pub warehouse_id : ℕ
  pub available : ℤ
  pub distance_score : F
  pub cost_score : F
  pub priority_score : F

module _ {F : Type 0} (ops : FloatOps F) where
  open ops use {decimal, of_int, add, mul, div, less}

  unfoldable pub composite_score : WarehouseScore F → F
  composite_score w =
      add (add (mul w.distance_score (decimal 3 1)) (mul w.cost_score (decimal 4 1)))
        (mul w.priority_score (decimal 3 1))

  abbrev pub score_of : ℕ → Session → Warehouse → WarehouseScore F
  score_of sku s w = record {
    warehouse_id = w.id;
    available = get_aggregated_available w.id sku s;
    distance_score = decimal 5 1;
    cost_score = decimal 5 1;
    priority_score = div (decimal 10 1) (of_int (max_ℤ w.fulfillment_priority (pos 1)));
  }

  -- `reverse=True` keeps the order of equal keys.
  abbrev pub higher_score : WarehouseScore F → WarehouseScore F → Bool
  higher_score a b = less (composite_score b) (composite_score a)

  unfoldable pub rank_warehouses : ℕ → Session → List (WarehouseScore F)
  rank_warehouses sku s = sorted higher_score (map (score_of sku s) (list_active s))

  -- The key `(w.warehouse_id != preferred, -w.composite_score)`.
  abbrev pub preferred_first : ℕ → WarehouseScore F → WarehouseScore F → Bool
  preferred_first preferred a b =
      if a.warehouse_id == preferred
      then (if b.warehouse_id == preferred then higher_score a b else true)
      else if b.warehouse_id == preferred
      then false
      else higher_score a b

  unfoldable pub order_scores : Option ℕ → List (WarehouseScore F) → List (WarehouseScore F)
  order_scores none scores = scores
  order_scores (some preferred) scores = sorted (preferred_first preferred) scores
