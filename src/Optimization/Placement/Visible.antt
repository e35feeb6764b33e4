-- ===== src/Optimization/Placement/Visible.antt =====
-- The rows that `get_network_visibility` groups.
use supply_chain_execution.Common.{
  ==_iff, Bool, Bool-cases, List, [], any, ap, arith, false, filter, if◌then◌else◌, inl, inr, refl,
  true, ℕ, ◌==◌, ◌||◌, ◌∷◌, ◌≡◌,
}
use supply_chain_execution.Common.Int.{int_laws, max_ℤ, pos, sum_of, ℤ, ◌+ℤ◌, ◌≤ℤ◌}
use supply_chain_execution.Persistence.Models.Inventory.{InventoryBalance, uncommitted}
use supply_chain_execution.Persistence.Queries.Inventory.{Visibility, group_rows, of_warehouse}

-- The available units that the visibility shows of a warehouse.
abbrev pub visible : ℕ → List Visibility → ℤ
visible w [] = pos 0
visible w (row ∷ rows) = (if row.warehouse_id == w then row.available else pos 0) +ℤ visible w rows

abbrev pub lists : ℕ → List Visibility → Bool
lists w [] = false
lists w (row ∷ rows) = (row.warehouse_id == w) || lists w rows

abbrev pub AreRows : List Visibility → Type 0
AreRows [] = Unit
AreRows (row ∷ rows) =
    (lists row.warehouse_id rows ≡ false) × (pos 0 ≤ℤ row.available) × AreRows rows

group_rows-unseen :
    (w : ℕ) (seen : List ℕ) (all_rows rows : List InventoryBalance)
    → any (λ (v : ℕ). v == w) seen ≡ true
    → lists w (group_rows seen all_rows rows) ≡ false
unfolding group_rows
group_rows-unseen w seen all_rows [] h = refl
group_rows-unseen w seen all_rows (b ∷ bs) h =
    elim (Bool-cases (any (λ (v : ℕ). v == b.warehouse_id) seen)) [
      | inl e ↦ rw e (group_rows-unseen w seen all_rows bs h)
      | inr e ↦
          let ih = group_rows-unseen w (b.warehouse_id ∷ seen) all_rows bs (ground (arith, h)) in
          let other : (b.warehouse_id == w) ≡ false = elim (Bool-cases (b.warehouse_id == w)) [
            | inl same ↦
                let p : b.warehouse_id ≡ w = (==_iff b.warehouse_id w).0 same in
                let f = ap (λ k. any (λ (v : ℕ). v == k) seen) p in absurd (cc)
            | inr differs ↦ differs
          ] in
          rw (e, other) ih
    ]

pub group_rows-AreRows :
    (seen : List ℕ) (all_rows rows : List InventoryBalance)
    → AreRows (group_rows seen all_rows rows)
unfolding group_rows
group_rows-AreRows seen all_rows [] = tt
group_rows-AreRows seen all_rows (b ∷ bs) =
    let w = b.warehouse_id in
    elim (Bool-cases (any (λ (v : ℕ). v == w) seen)) [
      | inl e ↦ rw e (group_rows-AreRows seen all_rows bs)
      | inr e ↦ rw e (
        group_rows-unseen w (w ∷ seen) all_rows bs (ground arith),
        max_of_zero (sum_of uncommitted (filter (of_warehouse w) all_rows)),
        group_rows-AreRows (w ∷ seen) all_rows bs,
      )
    ]
  where
    max_of_zero : (a : ℤ) → pos 0 ≤ℤ max_ℤ (pos 0) a
    max_of_zero a = ground arith

pub visible-floor : (w : ℕ) (rows : List Visibility) → AreRows rows → pos 0 ≤ℤ visible w rows
visible-floor w [] h = omega arith
visible-floor w (row ∷ rows) h = grind (int_laws, visible-floor w rows h.2)
