-- ===== src/Inventory/Allocation/Solvency.antt =====
-- `AllocationEngine.allocate` (domain/inventory/allocation.py) and the units that are on hand.
use supply_chain_execution.Common.{
  Bool-cases, List, Option, [], ap, arith, inl, inr, none, not, refl, some, ℕ, ◌&&◌, ◌∙◌, ◌∷◌, ◌≡◌,
}
use supply_chain_execution.Common.Int.{int_laws, leb_ℤ, ltb_ℤ, min_ℤ, pos, ℤ, ◌≤ℤ◌}
use supply_chain_execution.Core.Effect.{ok, resume_inv}
use supply_chain_execution.Core.Exceptions.{multiple_results_found}
use supply_chain_execution.Core.Float.{FloatOps}
use supply_chain_execution.Inventory.Allocation.{
  AllocationRequest, apply_allocation, create_reservation, reserve, reserve_found,
}
use supply_chain_execution.Inventory.Allocation.Engine.{
  Progress, allocate, allocate_from, conclude, start, take_from, try_warehouse,
}
use supply_chain_execution.Inventory.Allocation.Loop.{conclude_state}
use supply_chain_execution.Inventory.Allocation.Ranking.{
  WarehouseScore, order_scores, rank_warehouses,
}
use supply_chain_execution.Inventory.Allocation.Steps.{balances-create_reservation}
use supply_chain_execution.Inventory.Stock.{
  AllObjects, AllObjects-Holds, AllObjects-flush, AllObjects-put, get_balance_state, or_raise_found,
}
use supply_chain_execution.Persistence.Models.Inventory.{InventoryBalance, available, uncommitted}
use supply_chain_execution.Persistence.Queries.Inventory.{
  balance_id, get_balance, is_balance_of, put_balance,
}
use supply_chain_execution.Persistence.Session.{Env, Session}
use supply_chain_execution.Persistence.Table.{scalar_one_or_none, select}
use supply_chain_execution.Persistence.Table.Laws.{Holds, scalar_one-Holds}

-- What is reserved, allocated, damaged and in quarantine is on hand.
abbrev pub Covers : InventoryBalance → Type 0
Covers b = pos 0 ≤ℤ uncommitted b

abbrev pub IsSolvent : Session → Type 0
IsSolvent s = AllObjects Covers s.balances

reserve-Covers : (q : ℤ) (b : InventoryBalance) → Covers b → q ≤ℤ available b → Covers (reserve q b)
unfolding available
reserve-Covers q b h e = grind (int_laws, h)

reserve_found-IsSolvent :
    (w k : ℕ) (q : ℤ) (found : Option InventoryBalance) (s : Session)
    → ((b : InventoryBalance) → found ≡ some b → Holds b s.balances)
    → IsSolvent s
    → IsSolvent (reserve_found w k q found s).1
unfolding reserve_found put_balance
reserve_found-IsSolvent w k q none s held h = h
reserve_found-IsSolvent w k q (some b) s held h = elim (Bool-cases (ltb_ℤ (available b) q)) [
  | inl short ↦ rw short h
  | inr enough ↦ rw enough (
      AllObjects-put Covers balance_id (reserve q b) s.balances
        (reserve-Covers q b (AllObjects-Holds Covers b s.balances h (held b refl)) (ground arith))
        h)
]

pub get_balance-found :
    (w k : ℕ) (location : Option ℕ) (b : InventoryBalance) (s : Session)
    → (get_balance w k location s).0 ≡ ok (some b)
    → Holds b s.balances
unfolding get_balance
get_balance-found w k location b s e = scalar_one-Holds (is_balance_of w k location) s.balances b (
    or_raise_found (scalar_one_or_none (select (is_balance_of w k location) s.balances))
      multiple_results_found s (some b) e)

apply_allocation-IsSolvent :
    (w k : ℕ) (q : ℤ) (s : Session) → IsSolvent s → IsSolvent (apply_allocation w k q s).1
unfolding apply_allocation
apply_allocation-IsSolvent w k q s h =
    let (r, s₁) = get_balance w k none s in
    let same : s₁ ≡ s = get_balance_state w k none s in
    let h₁ : IsSolvent s₁ = rw same h in
    resume_inv IsSolvent r (reserve_found w k q) s₁ h₁ λ found e.
      reserve_found-IsSolvent w k q found s₁
        (λ b e'. rw same (get_balance-found w k none b s (e ∙ ap ok e'))) h₁

module _ (env : Env) (request : AllocationRequest) where
  take_from-IsSolvent :
      (w : ℕ) (q : ℤ) (p : Progress) (s : Session)
      → IsSolvent s
      → IsSolvent (take_from env request w q p s).1
  unfolding take_from
  take_from-IsSolvent w q p s h =
      let (r, s₁) = create_reservation env request w q s in
      let h₁ : IsSolvent s₁ =
        rw balances-create_reservation (AllObjects-flush Covers s.balances h) in
      let h₂ = apply_allocation-IsSolvent w request.sku_id q s₁ h₁ in
      resume_inv IsSolvent r _ s₁ h₁ λ reservation e.
        resume_inv IsSolvent (apply_allocation w request.sku_id q s₁).0 _ _ h₂ λ b e'. h₂

module _ {F : Type 0} (ops : FloatOps F) (env : Env) (request : AllocationRequest) where
  try_warehouse-IsSolvent :
      (score : WarehouseScore F) (p : Progress) (s : Session)
      → IsSolvent s
      → IsSolvent (try_warehouse ops env request score p s).1
  unfolding try_warehouse
  try_warehouse-IsSolvent score p s h =
      let q = min_ℤ p.remaining score.available in
      elim (Bool-cases (leb_ℤ score.available (pos 0))) [
        | inl empty ↦ rw empty h
        | inr stocked ↦ elim (Bool-cases (not request.allow_split && ltb_ℤ q p.remaining)) [
          | inl skipped ↦ rw (stocked, skipped) h
          | inr taken ↦
              rw (stocked, taken) (take_from-IsSolvent env request score.warehouse_id q p s h)
        ]
      ]

  allocate_from-IsSolvent :
      (scores : List (WarehouseScore F)) (p : Progress) (s : Session)
      → IsSolvent s
      → IsSolvent (allocate_from ops env request scores p s).1
  unfolding allocate_from
  allocate_from-IsSolvent [] p s h = h
  allocate_from-IsSolvent (score ∷ scores) p s h =
      let (r, s₁) = try_warehouse ops env request score p s in
      let h₁ = try_warehouse-IsSolvent score p s h in
      elim (Bool-cases (leb_ℤ p.remaining (pos 0))) [
        | inl done ↦ rw done h
        | inr more ↦ rw more (
            resume_inv IsSolvent r (allocate_from ops env request scores) s₁ h₁
              λ p' e. allocate_from-IsSolvent scores p' s₁ h₁)
      ]

  -- Whether it returns or raises, `allocate` commits no unit that is not on hand: if every balance
  -- covers its reserved, allocated, damaged and quarantined units, every balance still does.
  pub allocate-IsSolvent : (s : Session) → IsSolvent s → IsSolvent (allocate ops env request s).1
  unfolding allocate
  allocate-IsSolvent s h =
      let scores =
        order_scores ops request.preferred_warehouse_id (rank_warehouses ops request.sku_id s) in
      let (r, s₁) = allocate_from ops env request scores (start request) s in
      let h₁ = allocate_from-IsSolvent scores (start request) s h in
      resume_inv IsSolvent r (conclude ops env request scores) s₁ h₁
        λ p e. rw (conclude_state ops env request scores p s₁) h₁
