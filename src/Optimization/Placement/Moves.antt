-- ===== src/Optimization/Placement/Moves.antt =====
-- `rebalance` as a whole: no warehouse gives more than its surplus.
use mathlib.Core.Path.{subst}
use supply_chain_execution.Common.{
  All, Bool-cases, [], arith, false, if-false, if-true, inl, inr, refl, sym, true, ℕ, ◌==◌, ◌||◌,
  ◌∙◌, ◌∷◌, ◌≡◌,
}
use supply_chain_execution.Common.Int.{
  int_laws, leb_ℤ, min_ℤ, pos, sum_of, ℤ, ◌+ℤ◌, ◌-ℤ◌, ◌<ℤ◌, ◌≤ℤ◌,
}
use supply_chain_execution.Optimization.Placement.{
  Imbalance, Rebalancing, Units, empty_plan, fill_deficit, fill_deficits, rebalance,
}
use supply_chain_execution.Optimization.Placement.Sources.{
  AreKeys, IsCurrent, Keeps, add_zero, left, left-unnamed, moved_once, moved_units, names,
  recommend-Keeps, take_units-IsCurrent, taken_from,
}

fill_deficit-Keeps :
    (sku target : ℕ) (needed : ℤ) (u rest : Units) (r : Rebalancing)
    → Keeps u r
    → AreKeys rest
    → IsCurrent r.surplus rest
    → Keeps u (fill_deficit sku target needed rest r)
unfolding fill_deficit
fill_deficit-Keeps sku target needed u [] r k d c = k
fill_deficit-Keeps sku target needed u ((source, q) ∷ rest) r k d c =
    let t = min_ℤ needed q in
    let skip = leb_ℤ q (pos 0) || leb_ℤ t (pos 0) in
    let skipped = fill_deficit sku target needed rest r in
    let once = moved_once sku target source t u r k in
    let moved = fill_deficit sku target (needed -ℤ t) rest once in
    elim (Bool-cases skip) [
      | inl e ↦
          subst (Keeps u) (sym (if-true skip skipped moved e))
            (fill_deficit-Keeps sku target needed u rest r k d.1 c.1)
      | inr e ↦
          let more : pos 0 <ℤ t = ground arith in
          let within : t ≤ℤ q = ground arith in
          let enough : t ≤ℤ left source r.surplus = rw c.0.0 within in
          subst (Keeps u) (sym (if-false skip skipped moved e)) (
            fill_deficit-Keeps sku target (needed -ℤ t) u rest once
              (recommend-Keeps sku target source t u r k c.0.1 more enough) d.1
              (take_units-IsCurrent sku target source t u r k rest d.0 c.1))
    ]

IsCurrent-cons :
    (w : ℕ) (q : ℤ) (now rest : Units)
    → names w rest ≡ false
    → IsCurrent now rest
    → IsCurrent ((w, q) ∷ now) rest
IsCurrent-cons w q now [] d c = tt
IsCurrent-cons w q now ((v, p) ∷ rest) d c =
    let other : (w == v) ≡ false = ground (arith, d) in
    (
      (rw other (add_zero _ ∙ c.0.0), ground (arith, c.0.1)),
      IsCurrent-cons w q now rest (ground (arith, d)) c.1,
    )

IsCurrent-self : (u : Units) → AreKeys u → IsCurrent u u
IsCurrent-self [] d = tt
IsCurrent-self ((w, q) ∷ u) d =
    let same : (w == w) ≡ true = ground arith in
    (
      (rw (same, left-unnamed w u d.0) (omega int_laws), rw same refl),
      IsCurrent-cons w q u u d.0 (IsCurrent-self u d.1),
    )

fill_deficits-Keeps :
    (sku : ℕ) (u deficit : Units) (r : Rebalancing)
    → Keeps u r
    → Keeps u (fill_deficits sku deficit r)
unfolding fill_deficits
fill_deficits-Keeps sku u [] r k = k
fill_deficits-Keeps sku u ((target, needed) ∷ rest) r k =
    fill_deficits-Keeps sku u rest (fill_deficit sku target needed r.surplus r) (
      fill_deficit-Keeps sku target needed u r.surplus r k k.keys (IsCurrent-self r.surplus k.keys))

within_of_books : (a b c : ℤ) → a +ℤ b ≡ c → pos 0 ≤ℤ b → a ≤ℤ c
within_of_books a b c e h = grind int_laws

-- If no warehouse is listed twice among those with a surplus, and none with less than nothing: the
-- recommendations of a plan take from each warehouse at most its surplus in all, each moves at
-- least a unit, and together they move what the plan's total says.
pub rebalance-within :
    (sku id : ℕ) (i : Imbalance)
    → AreKeys i.surplus
    → ((w : ℕ) → pos 0 ≤ℤ left w i.surplus)
    → let plan = rebalance sku id i in
      ((w : ℕ) → taken_from w plan.recommendations ≤ℤ left w i.surplus)
      × All (λ x. pos 0 <ℤ x.quantity) plan.recommendations
      × (plan.total_units_moved ≡ sum_of moved_units plan.recommendations)
unfolding rebalance
rebalance-within sku id i d h =
    let begun : Rebalancing = record { plan = empty_plan id; surplus = i.surplus } in
    let k =
      fill_deficits-Keeps sku i.surplus i.deficit begun
        (record { keys = d; books = λ w. add_zero _; floor = h; total = refl; positive = tt }) in
    (λ w. within_of_books _ _ _ (k.books w) (k.floor w), k.positive, k.total)
