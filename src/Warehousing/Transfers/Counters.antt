-- ===== src/Warehousing/Transfers/Counters.antt =====
-- The units that `initiate_transfer` (domain/warehouse/transfers.py) moves from hand to transit.
use supply_chain_execution.Common.{
  Bool-cases, Option, ap, inl, inr, none, refl, some, ℕ, ◌==◌, ◌∙◌, ◌≡◌,
}
use supply_chain_execution.Common.Int.{int_laws, ltb_ℤ, ℤ, ◌+ℤ◌}
use supply_chain_execution.Core.Effect.{ok, pure, resume_inv}
use supply_chain_execution.Core.Types.{WarehouseTaskType}
use supply_chain_execution.Inventory.Allocation.{put_if_found}
use supply_chain_execution.Inventory.Allocation.Solvency.{get_balance-found}
use supply_chain_execution.Inventory.Stock.{get_balance_state}
use supply_chain_execution.Persistence.Models.Inventory.{InventoryBalance}
use supply_chain_execution.Persistence.Models.Warehouse.{WarehouseTransfer}
use supply_chain_execution.Persistence.Queries.Inventory.{
  balance_id, get_aggregated_available, get_balance, put_balance,
}
use supply_chain_execution.Persistence.Queries.Warehouse.{add_task, add_transfer}
use supply_chain_execution.Persistence.Session.{Env, Session, flush_all}
use supply_chain_execution.Persistence.Table.Laws.{
  HasKeys, HasKeys-flush, HasKeys-put, Holds, total, total-flush, total-put,
}
use supply_chain_execution.Warehousing.Transfers.{
  TransferRequest, create_transfer_task, debit, debit_source, initiate_transfer,
}

-- A balance's units on hand and in transit.
abbrev pub owned : InventoryBalance → ℤ
owned b = b.on_hand +ℤ b.in_transit

abbrev pub owned_total : Session → ℤ
owned_total s = total owned s.balances

-- The counters that a transfer must not disturb.
abbrev pub KeepsOwned : ℤ → Session → Type 0
KeepsOwned n s = HasKeys balance_id s.balances × (owned_total s ≡ n)

create_transfer_task-KeepsOwned :
    (env : Env) (kind : WarehouseTaskType) (w : ℕ) (t : WarehouseTransfer) (q n : ℤ) (s : Session)
    → KeepsOwned n s
    → KeepsOwned n (create_transfer_task env kind w t q s).1
unfolding create_transfer_task add_task flush_all
create_transfer_task-KeepsOwned env kind w t q n s h =
    (HasKeys-flush balance_id s.balances h.0, total-flush owned s.balances ∙ h.1)

put_debit-KeepsOwned :
    (q n : ℤ) (found : Option InventoryBalance) (s : Session)
    → ((b : InventoryBalance) → found ≡ some b → Holds b s.balances)
    → KeepsOwned n s
    → KeepsOwned n (put_if_found (debit q) found s).1
unfolding put_balance
put_debit-KeepsOwned q n none s held h = h
put_debit-KeepsOwned q n (some b) s held h =
    let moved = total-put balance_id owned b (debit q b) s.balances h.0 (held b refl) refl in
    let was = h.1 in
    (HasKeys-put balance_id (debit q b) s.balances h.0, grind (int_laws, moved, was))

debit_source-KeepsOwned :
    (env : Env) (t : WarehouseTransfer) (n : ℤ) (s : Session)
    → KeepsOwned n s
    → KeepsOwned n (debit_source env t s).1
unfolding debit_source
debit_source-KeepsOwned env t n s h =
    let (r, s₁) = get_balance t.source_warehouse_id t.sku_id none s in
    let same : s₁ ≡ s = get_balance_state t.source_warehouse_id t.sku_id none s in
    let h₁ : KeepsOwned n s₁ = rw same h in
    resume_inv (KeepsOwned n) r _ s₁ h₁ λ found e.
      let (r₂, s₂) = put_if_found (debit t.quantity) found s₁ in
      let h₂ =
        put_debit-KeepsOwned t.quantity n found s₁
          (λ b e'.
            rw same (get_balance-found t.source_warehouse_id t.sku_id none b s (e ∙ ap ok e')))
          h₁ in
      resume_inv (KeepsOwned n) r₂ _ s₂ h₂ λ a e₂.
        let (r₃, s₃) =
          create_transfer_task env WarehouseTaskType.transfer_out t.source_warehouse_id t t.quantity
            s₂ in
        let h₃ =
          create_transfer_task-KeepsOwned env WarehouseTaskType.transfer_out t.source_warehouse_id t
            t.quantity n s₂ h₂ in
        resume_inv (KeepsOwned n) r₃ (λ _. pure t) s₃ h₃ λ a' e₃. h₃

-- If no two balances have one id, then `initiate_transfer`, returning or raising, creates and
-- loses no unit: the units on hand and in transit, over all balances, are as many as before.
pub initiate_transfer-owned :
    (env : Env) (request : TransferRequest) (s : Session)
    → HasKeys balance_id s.balances
    → owned_total (initiate_transfer env request s).1 ≡ owned_total s
unfolding initiate_transfer add_transfer flush_all
initiate_transfer-owned env request s keys =
    let w = request.source_warehouse_id in
    let k = request.sku_id in
    let n = owned_total s in
    elim (Bool-cases (w == request.destination_warehouse_id)) [
      | inl same ↦ rw same refl
      | inr differ ↦ elim (Bool-cases (ltb_ℤ (get_aggregated_available w k s) request.quantity)) [
        | inl short ↦ rw (differ, short) refl
        | inr enough ↦
            rw (differ, enough)
              (debit_source-KeepsOwned env _ n _
                (HasKeys-flush balance_id s.balances keys, total-flush owned s.balances)).1
      ]
    ]
