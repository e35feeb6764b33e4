-- ===== src/Warehousing/Inbound/Stock.antt =====
-- The units that domain/warehouse/receiving.py moves.
use mathlib.Core.Path.{subst}
use supply_chain_execution.Common.{Option, ap, none, refl, some, ℕ, ◌∙◌, ◌≡◌}
use supply_chain_execution.Common.Int.{int_laws, ℤ, ◌+ℤ◌}
use supply_chain_execution.Core.Effect.{Result, ok, resume-eq-ok}
use supply_chain_execution.Inventory.Allocation.Solvency.{get_balance-found}
use supply_chain_execution.Inventory.Stock.{get_balance_state}
use supply_chain_execution.Persistence.Models.Inventory.{InventoryBalance, new_balance, uncommitted}
use supply_chain_execution.Persistence.Queries.Inventory.{
  add_balance, balance_id, get_balance, put_balance,
}
use supply_chain_execution.Persistence.Session.{Env, Session, flush_all}
use supply_chain_execution.Persistence.Table.{add}
use supply_chain_execution.Persistence.Table.Laws.{
  HasKeys, Holds, total, total-add, total-flush, total-put,
}
use supply_chain_execution.Warehousing.Inbound.{take_in, take_in_found, update_inventory}

-- The units that are on hand and neither reserved, allocated, damaged nor in quarantine.
abbrev pub uncommitted_total : Session → ℤ
uncommitted_total s = total uncommitted s.balances

module _ (env : Env) (w k : ℕ) (good bad : ℤ) (s : Session)
    (keys : HasKeys balance_id s.balances) where
  take_in_found-uncommitted :
      (found : Option InventoryBalance)
      → ((b : InventoryBalance) → found ≡ some b → Holds b s.balances)
      → uncommitted_total (take_in_found env w k good bad found s).1 +ℤ bad
        ≡ uncommitted_total s +ℤ good
  unfolding take_in_found put_balance add_balance flush_all
  take_in_found-uncommitted (some b) held =
      let moved =
        total-put balance_id uncommitted b (take_in good bad b) s.balances keys (held b refl)
          refl in
      grind (int_laws, moved)
  take_in_found-uncommitted none held =
      let b : InventoryBalance = record (new_balance (env.uuid4 s.draws) w k) {
        on_hand = good;
        damaged = bad;
      } in
      let sum = total-flush uncommitted (add b s.balances) ∙ total-add uncommitted b s.balances in
      rw sum (grind int_laws)

  -- If `_update_inventory` returns, and no two balances have one id, then the uncommitted units
  -- over all balances grew by the good units less the damaged ones.
  pub update_inventory-uncommitted :
      (s' : Session)
      → update_inventory env w k good bad s ≡ (ok tt, s')
      → uncommitted_total s' +ℤ bad ≡ uncommitted_total s +ℤ good
  unfolding update_inventory
  update_inventory-uncommitted s' e =
      let (r, s₁) = get_balance w k none s in
      let (found, p, q) =
        resume-eq-ok (get_balance w k none s).0 (take_in_found env w k good bad)
          (get_balance w k none s).1 s' tt e in
      let same : (get_balance w k none s).1 ≡ s = get_balance_state w k none s in
      let moved =
        take_in_found-uncommitted found (λ b e'. get_balance-found w k none b s (p ∙ ap ok e')) in
      let last : (take_in_found env w k good bad found s).1 ≡ s' =
        rw (← same) (ap (λ (x : Result (Unit {0}) × Session). x.1) q) in
      subst (λ (x : Session). uncommitted_total x +ℤ bad ≡ uncommitted_total s +ℤ good) last moved
