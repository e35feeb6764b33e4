-- ===== src/Inventory/Allocation/Orphan.antt =====
-- The failure path of a round of `AllocationEngine.allocate` (domain/inventory/allocation.py): the
-- reservation is added before the balance is checked, and the ranking reads stored columns that
-- may lag behind the balance object, since the session does not flush before a query.
use supply_chain_execution.Common.{ap, arith, none, refl, some, ℕ, ◌∙◌, ◌≡◌}
use supply_chain_execution.Common.Int.{ℤ, ◌+ℤ◌, ◌<ℤ◌}
use supply_chain_execution.Core.Effect.{ok, raised}
use supply_chain_execution.Core.Exceptions.{insufficient_inventory}
use supply_chain_execution.Inventory.Allocation.{
  AllocationRequest, apply_allocation, create_reservation, reserve_found,
}
use supply_chain_execution.Inventory.Allocation.Engine.{Progress, take_from}
use supply_chain_execution.Inventory.Allocation.Steps.{
  active_total-create_reservation, reserved_total-create_reservation, returns-create_reservation,
  share_self,
}
use supply_chain_execution.Inventory.Stock.{active_total, reserved_total}
use supply_chain_execution.Persistence.Models.Inventory.{InventoryBalance, available}
use supply_chain_execution.Persistence.Queries.Inventory.{get_balance}
use supply_chain_execution.Persistence.Session.{Env, Session}

reserve_found-short :
    (w k : ℕ) (q : ℤ) (b : InventoryBalance) (s : Session)
    → available b <ℤ q
    → reserve_found w k q (some b) s
      ≡ (raised (insufficient_inventory k q (available b) (some w)), s)
unfolding reserve_found
reserve_found-short w k q b s short = ground arith

module _ (env : Env) (request : AllocationRequest) (w : ℕ) (q : ℤ) (p : Progress)
    (b : InventoryBalance) (s : Session)
    (found : get_balance w request.sku_id none (create_reservation env request w q s).1
      ≡ (ok (some b), (create_reservation env request w q s).1))
    (short : available b <ℤ q) where
  take_from-short : take_from env request w q p s ≡ (
    raised (insufficient_inventory request.sku_id q (available b) (some w)),
    (create_reservation env request w q s).1,
  )
  unfolding take_from apply_allocation
  take_from-short =
      let (r, made) = returns-create_reservation env request w q s in
      rw (made, found, reserve_found-short w request.sku_id q b _ short)

  -- If the balance object lacks the units when a round reaches it, the round raises, and leaves an
  -- active reservation of those units with no reserved units behind it.
  pub take_from-orphan :
      ((take_from env request w q p s).0
        ≡ raised (insufficient_inventory request.sku_id q (available b) (some w)))
      × (active_total w request.sku_id (take_from env request w q p s).1
          ≡ active_total w request.sku_id s +ℤ q)
      × (reserved_total w request.sku_id (take_from env request w q p s).1
          ≡ reserved_total w request.sku_id s)
  take_from-orphan = rw take_from-short (
    refl,
    active_total-create_reservation env request w q s w request.sku_id
        ∙ ap (λ (n : ℤ). active_total w request.sku_id s +ℤ n) (share_self w request.sku_id q),
    reserved_total-create_reservation env request w q s w request.sku_id,
  )
