-- ===== src/Inventory/Allocation/Engine.antt =====
-- `AllocationEngine.allocate` of allocation.py: the loop over the ranked warehouses.
use supply_chain_execution.Common.{List, [], if◌then◌else◌, none, not, ℕ, ◌&&◌, ◌++◌, ◌∷◌}
use supply_chain_execution.Common.Int.{eqb_ℤ, leb_ℤ, ltb_ℤ, min_ℤ, pos, sum_of, ℤ, ◌+ℤ◌, ◌-ℤ◌}
use supply_chain_execution.Core.Effect.{gets, pure, raise_if, ◌>>=◌, ◌>>◌}
use supply_chain_execution.Core.Exceptions.{insufficient_inventory}
use supply_chain_execution.Core.Float.{FloatOps}
use supply_chain_execution.Inventory.Allocation.{
  AllocationRequest, AllocationResult, apply_allocation, create_reservation,
}
use supply_chain_execution.Inventory.Allocation.Ranking.{
  WarehouseScore, order_scores, rank_warehouses,
}
use supply_chain_execution.Persistence.Session.{Db, Env}

-- The loop's variables: the result so far and what remains to be allocated.
pub record Progress : Type 0 where
  pub result : AllocationResult
  pub remaining : ℤ

abbrev pub record_allocation : ℕ → ℤ → ℕ → Progress → Progress
record_allocation warehouse quantity reservation p = record {
  result = record (p.result) {
    allocations = p.result.allocations ++ (warehouse, quantity) ∷ [];
    reservation_ids = p.result.reservation_ids ++ reservation ∷ [];
    total_allocated = p.result.total_allocated +ℤ quantity;
  };
  remaining = p.remaining -ℤ quantity;
}

-- A reservation and its balance for one warehouse.
unfoldable pub take_from : Env → AllocationRequest → ℕ → ℤ → Progress → Db Progress
take_from env request warehouse quantity p = do
  reservation ← create_reservation env request warehouse quantity
  apply_allocation warehouse request.sku_id quantity
  pure (record_allocation warehouse quantity reservation.id p)

abbrev pub start : AllocationRequest → Progress
start request = record {
  result = record {
    order_line_id = request.order_line_id;
    allocations = [];
    total_allocated = pos 0;
    backorder_quantity = pos 0;
    reservation_ids = [];
  };
  remaining = request.quantity;
}

module _ {F : Type 0} (ops : FloatOps F) (env : Env) where
  -- One warehouse: `continue` leaves the variables as they are.
  unfoldable pub try_warehouse : AllocationRequest → WarehouseScore F → Progress → Db Progress
  try_warehouse request score p =
      if leb_ℤ score.available (pos 0)
      then pure p
      else let quantity = min_ℤ p.remaining score.available in
        if not request.allow_split && ltb_ℤ quantity p.remaining
        then pure p
        else take_from env request score.warehouse_id quantity p

  -- The loop; `break` once nothing remains.
  unfoldable pub allocate_from :
      AllocationRequest → List (WarehouseScore F) → Progress → Db Progress
  allocate_from request [] p = pure p
  allocate_from request (score ∷ scores) p =
      if leb_ℤ p.remaining (pos 0)
      then pure p
      else do p' ← try_warehouse request score p; allocate_from request scores p'

  abbrev pub available_of : WarehouseScore F → ℤ
  available_of w = w.available

  -- The end of `allocate`: the backorder, and the error when nothing was allocated.
  abbrev pub conclude : AllocationRequest → List (WarehouseScore F) → Progress → Db AllocationResult
  conclude request scores p =
      raise_if (eqb_ℤ p.result.total_allocated (pos 0))
        (insufficient_inventory request.sku_id request.quantity (sum_of available_of scores) none)
      >> pure (record (p.result) { backorder_quantity = p.remaining })

  unfoldable pub allocate : AllocationRequest → Db AllocationResult
  allocate request = do
    ranked ← gets (rank_warehouses ops request.sku_id)
    let scores = order_scores ops request.preferred_warehouse_id ranked
    p ← allocate_from request scores (start request)
    conclude request scores p
