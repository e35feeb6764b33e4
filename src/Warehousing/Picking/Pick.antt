-- ===== src/Warehousing/Picking/Pick.antt =====
-- Where `_find_pick_location` (domain/warehouse/pick_pack.py) sends a picker.
use mathlib.Core.Path.{subst}
use supply_chain_execution.Common.{
  Bool-cases, List, Option, [], ap, arith, if-false, if-true, inl, inr, none, some, sym, true, ℕ,
  ◌∙◌, ◌∷◌, ◌≡◌,
}
use supply_chain_execution.Common.Int.{ℤ, ◌≤ℤ◌}
use supply_chain_execution.Core.Effect.{ok, pure, resume-eq-ok}
use supply_chain_execution.Inventory.Stock.{get_balance_state}
use supply_chain_execution.Persistence.Models.Inventory.{InventoryBalance, available}
use supply_chain_execution.Persistence.Models.Warehouse.{WarehouseLocation}
use supply_chain_execution.Persistence.Queries.Inventory.{get_balance}
use supply_chain_execution.Persistence.Session.{Db, Session}
use supply_chain_execution.Warehousing.Picking.{find_pick_location, holds_enough}

-- A location that a pick is sent to has a balance of the SKU with enough available units.
pub record HasEnough (w k : ℕ) (q : ℤ) (location : ℕ) (s : Session) : Type 0 where
  pub balance : InventoryBalance
  pub found : get_balance w k (some location) s ≡ (ok (some balance), s)
  pub enough : q ≤ℤ available balance

enough_of :
    (w k : ℕ) (q : ℤ) (location : ℕ) (s : Session) (found : Option InventoryBalance)
    → get_balance w k (some location) s ≡ (ok found, s)
    → holds_enough q found ≡ true
    → HasEnough w k q location s
enough_of w k q location s none e h = cc
enough_of w k q location s (some b) e h = record {
  balance = b;
  found = e;
  enough = ground (arith, h);
}

-- When `_find_pick_location` returns a location, the location has a balance of the SKU with at
-- least the units asked for available; and the search leaves the session as it is.
pub find_pick_location-HasEnough :
    (w k : ℕ) (q : ℤ) (ls : List WarehouseLocation) (l : WarehouseLocation) (s s' : Session)
    → find_pick_location w k q ls s ≡ (ok (some l), s')
    → HasEnough w k q l.id s × (s' ≡ s)
unfolding find_pick_location
find_pick_location-HasEnough w k q [] l s s' e =
    let s₁ = (get_balance w k none s).1 in
    let (b, p, r) = resume-eq-ok (get_balance w k none s).0 (λ _. pure none) s₁ s' (some l) e in cc
find_pick_location-HasEnough w k q (x ∷ xs) l s s' e =
    let (o, s₁) = get_balance w k (some x.id) s in
    let (b, p, r) = resume-eq-ok o _ s₁ s' (some l) e in
    let same : s₁ ≡ s = get_balance_state w k (some x.id) s in
    let found : get_balance w k (some x.id) s ≡ (ok b, s) = λ i. (p i, same i) in
    let run = λ (f : Db (Option WarehouseLocation)). f s₁ in
    elim (Bool-cases (holds_enough q b)) [
      | inl here ↦
          let r' = ap run (sym (if-true _ _ _ here)) ∙ r in
          let chosen : x ≡ l = cc in
          let kept : s₁ ≡ s' = cc in
          (
            subst (λ (y : WarehouseLocation). HasEnough w k q y.id s) chosen
                (enough_of w k q x.id s b found here),
            sym kept ∙ same,
          )
      | inr elsewhere ↦
          let r' = ap run (sym (if-false _ _ _ elsewhere)) ∙ r in
          subst (λ (z : Session). HasEnough w k q l.id z × (s' ≡ z)) same
            (find_pick_location-HasEnough w k q xs l s₁ s' r')
    ]
