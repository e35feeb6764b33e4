-- ===== src/Inventory/Allocation/Backing.antt =====
-- `AllocationEngine.allocate` (domain/inventory/allocation.py), the reserved counters and the
-- active reservations.
use mathlib.Core.Path.{subst}
use supply_chain_execution.Common.{ap, sym, ℕ, ◌≡◌}
use supply_chain_execution.Common.Int.{ℤ}
use supply_chain_execution.Core.Effect.{Result, ok, resume-eq-ok}
use supply_chain_execution.Core.Float.{FloatOps}
use supply_chain_execution.Inventory.Allocation.{
  AllocationRequest, AllocationResult, apply_allocation, create_reservation,
}
use supply_chain_execution.Inventory.Allocation.Engine.{
  Progress, allocate, allocate_from, conclude, start, take_from,
}
use supply_chain_execution.Inventory.Allocation.Loop.{
  allocate_from_inv, conclude-eq-ok, take_from-eq-ok,
}
use supply_chain_execution.Inventory.Allocation.Ranking.{order_scores, rank_warehouses}
use supply_chain_execution.Inventory.Allocation.Steps.{
  HasKeys-apply_allocation, IsSynced-apply_allocation, active_total-create_reservation,
  balances-create_reservation, reservations-apply_allocation, reserved_total-apply_allocation,
  reserved_total-create_reservation,
}
use supply_chain_execution.Inventory.Stock.{IsBacked, IsSynced, IsSynced-flush}
use supply_chain_execution.Persistence.Models.Inventory.{InventoryBalance, InventoryReservation}
use supply_chain_execution.Persistence.Queries.Inventory.{balance_id}
use supply_chain_execution.Persistence.Session.{Env, Session}
use supply_chain_execution.Persistence.Table.Laws.{HasKeys, HasKeys-flush}

module _ (env : Env) (request : AllocationRequest) (w : ℕ) (q : ℤ) (s : Session) where
  create_reservation-IsBacked :
      IsBacked s
      → HasKeys balance_id (create_reservation env request w q s).1.balances
        × IsSynced (create_reservation env request w q s).1.balances
  create_reservation-IsBacked h =
      rw balances-create_reservation
        (HasKeys-flush balance_id s.balances h.balance_keys, IsSynced-flush s.balances)

  -- The reservation and its balance move by the same units.
  reserve_pair-IsBacked :
      (r : InventoryReservation) (b : InventoryBalance) (s₁ s' : Session)
      → IsBacked s
      → create_reservation env request w q s ≡ (ok r, s₁)
      → apply_allocation w request.sku_id q s₁ ≡ (ok b, s')
      → IsBacked s'
  reserve_pair-IsBacked r b s₁ s' h e₁ e₂ =
      let k = request.sku_id in
      let made : s₁ ≡ (create_reservation env request w q s).1 =
        sym (ap (λ (x : Result InventoryReservation × Session). x.1) e₁) in
      let (keys₀, synced₀) = create_reservation-IsBacked h in
      let keys : HasKeys balance_id s₁.balances = rw made keys₀ in
      let synced : IsSynced s₁.balances = rw made synced₀ in
      record {
        balance_keys = HasKeys-apply_allocation w k q b s₁ s' synced keys e₂;
        synced = IsSynced-apply_allocation w k q b s₁ s' synced keys e₂;
        backed = λ w' k'. cc (
          reserved_total-apply_allocation w k q b s₁ s' synced keys e₂ w' k',
          reserved_total-create_reservation env request w q s w' k',
          active_total-create_reservation env request w q s w' k',
          h.backed w' k',
          reservations-apply_allocation w k q b s₁ s' synced keys e₂,
          made,
        );
      }

module _ (env : Env) (request : AllocationRequest) where
  pub take_from-IsBacked :
      (w : ℕ) (q : ℤ) (p p' : Progress) (s s' : Session)
      → IsBacked s
      → take_from env request w q p s ≡ (ok p', s')
      → IsBacked s'
  take_from-IsBacked w q p p' s s' h e =
      let (reservation, b, s₁, recorded, made, applied) =
        take_from-eq-ok env request w q p p' s s' e in
      reserve_pair-IsBacked env request w q s reservation b s₁ s' h made applied

module _ {F : Type 0} (ops : FloatOps F) (env : Env) (request : AllocationRequest) where
  -- A returned `allocate` keeps the books: if each balance's reserved units were backed by active
  -- reservations, warehouse by warehouse and SKU by SKU, they are so afterwards, with the new
  -- reservations counted on both sides.
  pub allocate-IsBacked :
      (r : AllocationResult) (s s' : Session)
      → IsBacked s
      → allocate ops env request s ≡ (ok r, s')
      → IsBacked s'
  unfolding allocate
  allocate-IsBacked r s s' h e =
      let scores =
        order_scores ops request.preferred_warehouse_id (rank_warehouses ops request.sku_id s) in
      let (r₁, s₁) = allocate_from ops env request scores (start request) s in
      let (p, e₁, e₂) = resume-eq-ok r₁ (conclude ops env request scores) s₁ s' r e in
      let same : s₁ ≡ s' = (conclude-eq-ok ops env request scores p r s₁ s' e₂).0 in
      subst IsBacked same (
        allocate_from_inv ops env request (λ _. IsBacked)
          (λ w q p p' s s' h fits taken. take_from-IsBacked env request w q p p' s s' h taken)
          scores (start request) p s s₁ h (λ i. (e₁ i, s₁)))
