-- ===== src/Optimization/Placement/Network.antt =====
-- `analyze_network`: what its plan takes of the visible units.
use supply_chain_execution.Common.{
  All, Bool-cases, List, Option, [], arith, inl, inr, length, ltb, none, refl, some, ℕ, ◌&&◌, ◌+◌,
  ◌==◌, ◌∙◌, ◌∷◌, ◌≡◌, ◌⊎◌,
}
use supply_chain_execution.Common.Int.{int_laws, pos, sum_of, ℤ, ◌+ℤ◌, ◌<ℤ◌, ◌≤ℤ◌}
use supply_chain_execution.Core.Effect.{ok, or_raise, raised}
use supply_chain_execution.Core.Exceptions.{multiple_results_found}
use supply_chain_execution.Optimization.Placement.{
  Imbalance, PlacementPlan, analyze_network, classify_rows, empty_plan, rebalance, reorder_of,
  safety_of,
}
use supply_chain_execution.Optimization.Placement.Moves.{rebalance-within}
use supply_chain_execution.Optimization.Placement.Sources.{left, moved_units, taken_from}
use supply_chain_execution.Optimization.Placement.Split.{IsSplit, classify-IsSplit}
use supply_chain_execution.Optimization.Placement.Visible.{
  AreRows, group_rows-AreRows, visible, visible-floor,
}
use supply_chain_execution.Persistence.Models.Inventory.{SafetyStockPolicy}
use supply_chain_execution.Persistence.Queries.Inventory.{
  Visibility, get_network_visibility, get_policy,
}
use supply_chain_execution.Persistence.Session.{Env, Session}
use supply_chain_execution.Persistence.Table.{scalar_one_or_none, select}
use supply_chain_execution.Persistence.Table.Laws.{total}

-- Reading a policy leaves the session, and raises only if there are several.
get_policy-reads :
    (w sku : ℕ) (s : Session)
    → (get_policy w sku s ≡ (raised multiple_results_found, s))
      ⊎ ((found : Option SafetyStockPolicy) × (get_policy w sku s ≡ (ok found, s)))
unfolding get_policy
get_policy-reads w sku s = go (
    scalar_one_or_none
      (select (λ (p : SafetyStockPolicy). (p.warehouse_id == w) && (p.sku_id == sku)) s.policies))
  where
    go :
        (o : Option (Option SafetyStockPolicy))
        → (or_raise o multiple_results_found s ≡ (raised multiple_results_found, s))
          ⊎ ((found : Option SafetyStockPolicy) × (or_raise o multiple_results_found s
                ≡ (ok found, s)))
    go none = inl refl
    go (some found) = inr (found, refl)

-- No policy for the SKU has a negative quantity.
abbrev pub AreNatural : ℕ → Session → Type 0
AreNatural sku s =
    (w : ℕ) (p : SafetyStockPolicy)
    → (get_policy w sku s).0 ≡ ok (some p)
    → (pos 0 ≤ℤ p.reorder_point) × (pos 0 ≤ℤ p.safety_stock_qty)

draw-AreNatural :
    (sku : ℕ) (s : Session) → AreNatural sku s → AreNatural sku (record s { draws = s.draws + 1 })
unfolding get_policy
draw-AreNatural sku s natural w p e = natural w p (
    same (
      scalar_one_or_none
        (select (λ (x : SafetyStockPolicy). (x.warehouse_id == w) && (x.sku_id == sku)) s.policies))
    ∙ e)
  where
    same :
        (o : Option (Option SafetyStockPolicy))
        → (or_raise o multiple_results_found s).0
          ≡ (or_raise o multiple_results_found (record s { draws = s.draws + 1 })).0
    same none = refl
    same (some found) = refl

policy-floor :
    (sku w : ℕ) (s : Session) (found : Option SafetyStockPolicy)
    → AreNatural sku s
    → (get_policy w sku s).0 ≡ ok found
    → (pos 0 ≤ℤ reorder_of found) × (pos 0 ≤ℤ safety_of found)
policy-floor sku w s none natural e = (omega arith, omega arith)
policy-floor sku w s (some p) natural e = natural w p e

classify_rows-IsSplit :
    (sku : ℕ) (s : Session) (rows : List Visibility) (i : Imbalance)
    → AreNatural sku s
    → AreRows rows
    → IsSplit i.surplus rows
    → (classify_rows sku rows i s ≡ (raised multiple_results_found, s))
      ⊎ ((i' : Imbalance) × (classify_rows sku rows i s ≡ (ok i', s))
          × IsSplit i'.surplus []
          × ((w : ℕ) → left w i'.surplus ≤ℤ left w i.surplus +ℤ visible w rows))
unfolding classify_rows
classify_rows-IsSplit sku s [] i natural k h = inr (i, refl, h, λ w. grind int_laws)
classify_rows-IsSplit sku s (row ∷ rows) i natural k h =
    elim (get_policy-reads row.warehouse_id sku s) [
      | inl e ↦ inl (rw e refl)
      | inr (found, e) ↦
          let (reorder, safety) = policy-floor sku row.warehouse_id s found natural (rw e refl) in
          let (split, less) =
            classify-IsSplit row rows (reorder_of found) (safety_of found) i reorder safety k.0 k.1
              h in
          rw e (elim (classify_rows-IsSplit sku s rows _ natural k.2 split) [
            | inl several ↦ inl several
            | inr (i', run, done, within) ↦
                inr (i', run, done, λ w. chain _ _ _ _ _ (within w) (less w))
          ])
    ]
  where
    chain : (a b c d e : ℤ) → a ≤ℤ b +ℤ c → b ≤ℤ d +ℤ e → a ≤ℤ d +ℤ (e +ℤ c)
    chain a b c d e p q = grind int_laws

-- If no policy for the SKU has a negative quantity: `analyze_network` raises MultipleResultsFound,
-- or it returns a plan that takes from each warehouse at most the units that the visibility shows
-- as available there, moves at least a unit with each recommendation, and states the units moved
-- in all.
pub analyze_network-within :
    (env : Env) (sku : ℕ) (s : Session)
    → AreNatural sku s
    → ((analyze_network env sku s).0 ≡ raised multiple_results_found)
      ⊎ ((plan : PlacementPlan) × ((analyze_network env sku s).0 ≡ ok plan)
          × ((w : ℕ)
              → taken_from w plan.recommendations ≤ℤ visible w (get_network_visibility sku s))
          × All (λ x. pos 0 <ℤ x.quantity) plan.recommendations
          × (plan.total_units_moved ≡ sum_of moved_units plan.recommendations))
unfolding analyze_network get_network_visibility
analyze_network-within env sku s natural =
    let rows = get_network_visibility sku s in
    let sound : AreRows rows = group_rows-AreRows [] _ _ in
    let drawn = record s { draws = s.draws + 1 } in
    let quiet = draw-AreNatural sku s natural in
    let nothing : Imbalance = record { surplus = []; deficit = [] } in
    let start : IsSplit nothing.surplus rows = record {
      keys = tt;
      floor = λ w. omega arith;
      fresh = λ w e. refl;
    } in
    elim (Bool-cases (ltb (length rows) 2)) [
      | inl few ↦ rw few (inr (empty_plan _, refl, λ w. visible-floor w rows sound, tt, refl))
      | inr more ↦ rw more (elim (classify_rows-IsSplit sku drawn rows nothing quiet sound start) [
        | inl several ↦ inl (rw several refl)
        | inr (i, run, split, less) ↦
            let (within, positive, total) =
              rebalance-within sku (env.uuid4 s.draws) i split.keys split.floor in
            inr (
              rebalance sku (env.uuid4 s.draws) i,
              rw run refl,
              λ w. through _ _ _ (within w) (less w),
              positive,
              total,
            )
      ])
    ]
  where
    through : (a b c : ℤ) → a ≤ℤ b → b ≤ℤ pos 0 +ℤ c → a ≤ℤ c
    through a b c p q = grind int_laws
