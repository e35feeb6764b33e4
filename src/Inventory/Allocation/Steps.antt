-- ===== src/Inventory/Allocation/Steps.antt =====
-- What the engine's steps do to the two records of a reserved unit: `_create_reservation`,
-- `_apply_allocation` and the assignments of domain/inventory/allocation.py.
use supply_chain_execution.Common.{
  Option, ap, arith, if◌then◌else◌, none, refl, some, true, ℕ, ◌&&◌, ◌==◌, ◌∙◌, ◌≡◌,
}
use supply_chain_execution.Common.Int.{int_laws, pos, ℤ, ◌+ℤ◌, ◌≤ℤ◌}
use supply_chain_execution.Core.Effect.{ok, resume-eq-ok}
use supply_chain_execution.Inventory.Allocation.{
  AllocationRequest, apply_allocation, create_reservation, reserve, reserve_found,
}
use supply_chain_execution.Inventory.Stock.{
  IsSynced, IsSynced-put, active_total, get_balance-Holds, get_balance_state, put_balance-totals,
  reserved_column, reserved_total,
}
use supply_chain_execution.Persistence.Models.Inventory.{
  InventoryBalance, InventoryReservation, available,
}
use supply_chain_execution.Persistence.Queries.Inventory.{
  add_reservation, balance_id, get_balance, is_balance_of, put_balance,
}
use supply_chain_execution.Persistence.Session.{Env, Session, flush_all}
use supply_chain_execution.Persistence.Table.{flush}
use supply_chain_execution.Persistence.Table.Laws.{HasKeys, HasKeys-put, total-add, total-flush}

-- The share of one warehouse and SKU in a movement of `q` units.
abbrev pub share : ℕ → ℕ → ℕ → ℕ → ℤ → ℤ
share w k w' k' q = if (w == w') && (k == k') then q else pos 0

pub share_self : (w k : ℕ) (q : ℤ) → share w k w k q ≡ q
share_self w k q = ground arith

module _ (env : Env) (request : AllocationRequest) (w : ℕ) (q : ℤ) (s : Session) where
  pub active_total-create_reservation :
      (w' k' : ℕ)
      → active_total w' k' (create_reservation env request w q s).1
        ≡ active_total w' k' s +ℤ share w request.sku_id w' k' q
  unfolding create_reservation flush_all add_reservation
  active_total-create_reservation w' k' = simp (total-flush, total-add) (ground arith)

  pub returns-create_reservation :
      (r : InventoryReservation) × ((create_reservation env request w q s).0 ≡ ok r)
  unfolding create_reservation add_reservation
  returns-create_reservation = (_, refl)

  pub balances-create_reservation :
      (create_reservation env request w q s).1.balances ≡ flush s.balances
  unfolding create_reservation flush_all add_reservation
  balances-create_reservation = refl

  pub reserved_total-create_reservation :
      (w' k' : ℕ)
      → reserved_total w' k' (create_reservation env request w q s).1 ≡ reserved_total w' k' s
  reserved_total-create_reservation w' k' =
      rw balances-create_reservation (total-flush _ s.balances)

reserve_found-eq-ok :
    (w k : ℕ) (q : ℤ) (b' : InventoryBalance) (found : Option InventoryBalance) (s s' : Session)
    → reserve_found w k q found s ≡ (ok b', s')
    → (b : InventoryBalance) × (found ≡ some b)
      × (q ≤ℤ available b)
      × (s' ≡ (put_balance (reserve q b) s).1)
unfolding reserve_found put_balance
reserve_found-eq-ok w k q b' none s s' e = cc
reserve_found-eq-ok w k q b' (some b) s s' e = (b, refl, ground arith, ground arith)

-- `_apply_allocation` returns only where the balance is there and has the units.
pub apply_allocation-eq-ok :
    (w k : ℕ) (q : ℤ) (b' : InventoryBalance) (s s' : Session)
    → apply_allocation w k q s ≡ (ok b', s')
    → (b : InventoryBalance) × (get_balance w k none s ≡ (ok (some b), s))
      × (q ≤ℤ available b)
      × (s' ≡ (put_balance (reserve q b) s).1)
unfolding apply_allocation
apply_allocation-eq-ok w k q b' s s' e =
    let (r, s₁) = get_balance w k none s in
    let same : s₁ ≡ s = get_balance_state w k none s in
    let (found, e₁, e₂) = resume-eq-ok r (reserve_found w k q) s₁ s' b' e in
    let (b, e₃, covers, moved) = reserve_found-eq-ok w k q b' found s₁ s' e₂ in
    (b, cc, covers, moved ∙ ap (λ (x : Session). (put_balance (reserve q b) x).1) same)

reserved_column-reserve :
    (w k w' k' : ℕ) (q : ℤ) (b : InventoryBalance)
    → is_balance_of w k none b ≡ true
    → reserved_column w' k' (reserve q b) ≡ reserved_column w' k' b +ℤ share w k w' k' q
reserved_column-reserve w k w' k' q b key = grind int_laws

-- A returned `_apply_allocation` moves exactly the reserved units of its warehouse and SKU.
module _ (w k : ℕ) (q : ℤ) (b' : InventoryBalance) (s s' : Session) (synced : IsSynced s.balances)
    (keys : HasKeys balance_id s.balances) (returned : apply_allocation w k q s ≡ (ok b', s')) where
  pub reserved_total-apply_allocation :
      (w' k' : ℕ) → reserved_total w' k' s' ≡ reserved_total w' k' s +ℤ share w k w' k' q
  reserved_total-apply_allocation w' k' =
      let (b, found, covers, moved) = apply_allocation-eq-ok w k q b' s s' returned in
      let (held, key, _) = get_balance-Holds w k b s s synced found in
      rw moved (
        grind (
          int_laws,
          put_balance-totals (reserved_column w' k') b (reserve q b) s keys held refl,
          reserved_column-reserve w k w' k' q b key,
        ))

  pub IsSynced-apply_allocation : IsSynced s'.balances
  unfolding put_balance
  IsSynced-apply_allocation =
      let (b, found, covers, moved) = apply_allocation-eq-ok w k q b' s s' returned in
      let (held, key, _) = get_balance-Holds w k b s s synced found in
      rw moved (IsSynced-put b (reserve q b) s.balances keys held (refl, refl, refl, refl) synced)

  pub HasKeys-apply_allocation : HasKeys balance_id s'.balances
  unfolding put_balance
  HasKeys-apply_allocation =
      let (b, found, covers, moved) = apply_allocation-eq-ok w k q b' s s' returned in
      rw moved (HasKeys-put balance_id (reserve q b) s.balances keys)

  pub reservations-apply_allocation : s'.reservations ≡ s.reservations
  unfolding put_balance
  reservations-apply_allocation =
      let (b, found, covers, moved) = apply_allocation-eq-ok w k q b' s s' returned in rw moved
