-- ===== src/Optimization/Placement/Split.antt =====
-- The surplus and the deficit that `classify` tells apart.
use supply_chain_execution.Common.{
  ==_iff, Bool-cases, List, [], ap, arith, false, if◌then◌else◌, inl, inr, refl, true, ℕ, ◌++◌,
  ◌==◌, ◌||◌, ◌∙◌, ◌∷◌, ◌≡◌,
}
use supply_chain_execution.Common.Int.{int_laws, ltb_ℤ, pos, ℤ, ◌+ℤ◌, ◌-ℤ◌, ◌≤ℤ◌}
use supply_chain_execution.Optimization.Placement.{Imbalance, Units, classify}
use supply_chain_execution.Optimization.Placement.Sources.{AreKeys, left, names}
use supply_chain_execution.Optimization.Placement.Visible.{lists}
use supply_chain_execution.Persistence.Queries.Inventory.{Visibility}

names-append : (w v : ℕ) (q : ℤ) (u : Units) → names w (u ++ (v, q) ∷ []) ≡ (names w u || (v == w))
names-append w v q [] = ground arith
names-append w v q ((x, r) ∷ u) = ground (arith, names-append w v q u)

append-AreKeys :
    (v : ℕ) (q : ℤ) (u : Units) → AreKeys u → names v u ≡ false → AreKeys (u ++ (v, q) ∷ [])
append-AreKeys v q [] k h = (refl, tt)
append-AreKeys v q ((x, r) ∷ u) k h =
    (names-append x v q u ∙ ground (arith, k.0, h), append-AreKeys v q u k.1 (ground (arith, h)))

left-append :
    (w v : ℕ) (q : ℤ) (u : Units)
    → left w (u ++ (v, q) ∷ []) ≡ left w u +ℤ (if v == w then q else pos 0)
left-append w v q [] = omega int_laws
left-append w v q ((x, r) ∷ u) = grind (int_laws, left-append w v q u)

-- The surplus is of warehouses that are not yet to come, and each has some.
pub record IsSplit (u : Units) (rows : List Visibility) : Type 0 where
  pub keys : AreKeys u
  pub floor : (w : ℕ) → pos 0 ≤ℤ left w u
  pub fresh : (w : ℕ) → lists w rows ≡ true → names w u ≡ false

drop-IsSplit :
    (row : Visibility) (rows : List Visibility) (u : Units)
    → IsSplit u (row ∷ rows)
    → IsSplit u rows
drop-IsSplit row rows u h = record {
  keys = h.keys;
  floor = h.floor;
  fresh = λ w e. h.fresh w (ground (arith, e));
}

add-IsSplit :
    (row : Visibility) (rows : List Visibility) (q : ℤ) (u : Units)
    → lists row.warehouse_id rows ≡ false
    → pos 0 ≤ℤ q
    → IsSplit u (row ∷ rows)
    → IsSplit (u ++ (row.warehouse_id, q) ∷ []) rows
add-IsSplit row rows q u once some_units h = record {
  keys = append-AreKeys row.warehouse_id q u h.keys (h.fresh row.warehouse_id (ground arith));
  floor = λ w. rw (left-append w row.warehouse_id q u) (grind (int_laws, h.floor w));
  fresh = λ w e. names-append w row.warehouse_id q u ∙ apart w e (h.fresh w (ground (arith, e)));
}
  where
    apart :
        (w : ℕ)
        → lists w rows ≡ true
        → names w u ≡ false
        → (names w u || (row.warehouse_id == w)) ≡ false
    apart w e n = elim (Bool-cases (row.warehouse_id == w)) [
      | inl same ↦
          let f = ap (λ k. lists k rows) ((==_iff row.warehouse_id w).0 same) in absurd (cc)
      | inr differs ↦ rw (n, differs) refl
    ]

-- What a row adds to the surplus is there to be moved.
pub classify-IsSplit :
    (row : Visibility) (rows : List Visibility) (reorder safety : ℤ) (i : Imbalance)
    → pos 0 ≤ℤ reorder
    → pos 0 ≤ℤ safety
    → lists row.warehouse_id rows ≡ false
    → pos 0 ≤ℤ row.available
    → IsSplit i.surplus (row ∷ rows)
    → let i' = classify row.warehouse_id row.available reorder safety i in
      IsSplit i'.surplus rows
      × ((w : ℕ)
          → left w i'.surplus
            ≤ℤ left w i.surplus +ℤ (if row.warehouse_id == w then row.available else pos 0))
unfolding classify
classify-IsSplit row rows reorder safety i r s once a h =
    elim (Bool-cases (ltb_ℤ (reorder +ℤ (safety +ℤ safety)) row.available)) [
      | inl much ↦
          let q = row.available -ℤ reorder -ℤ safety in
          rw much (
            add-IsSplit row rows q i.surplus once (grind int_laws) h,
            λ w. rw (left-append w row.warehouse_id q i.surplus) (grind int_laws),
          )
      | inr little ↦ rw little (elim (Bool-cases (ltb_ℤ row.available reorder)) [
        | inl short ↦ rw short (drop-IsSplit row rows i.surplus h, λ w. grind int_laws)
        | inr enough ↦ rw enough (drop-IsSplit row rows i.surplus h, λ w. grind int_laws)
      ])
    ]
