-- ===== src/Fulfillment/Routing/Best.antt =====
-- `_select_warehouses` (domain/fulfillment/routing.py) for the strategies that take the two best.
use text.Mathlib.Text.{◌==◌ as str_eq}
use supply_chain_execution.Common.{
  All, Bool, String, [], count_of, if◌then◌else◌, length, ltb, ◌∷◌, ◌≡◌, ◌≤◌,
}
use supply_chain_execution.Common.Int.{ltb_ℤ, pos, ℤ, ◌-ℤ◌, ◌≤ℤ◌}
use supply_chain_execution.Fulfillment.Routing.{RoutingCandidate}
use supply_chain_execution.Fulfillment.Routing.Selection.{Candidates}

abbrev days_of : RoutingCandidate → ℤ
days_of c = c.transit_days

abbrev cost_of : RoutingCandidate → ℤ
cost_of c = c.fulfillment_cost

abbrev shortage_of : RoutingCandidate → ℤ
shortage_of c = pos 0 -ℤ c.total_available

-- What a strategy wants to be small.
abbrev pub key_of : String → RoutingCandidate → ℤ
key_of strategy =
    if str_eq strategy "speed_optimized"
    then days_of
    else if str_eq strategy "cost_optimized"
    then cost_of
    else shortage_of

abbrev pub better_than : (RoutingCandidate → ℤ) → RoutingCandidate → RoutingCandidate → Bool
better_than key a b = ltb_ℤ (key b) (key a)

-- The two best of the candidates, or all of them if there are fewer.
pub record IsBest (key : RoutingCandidate → ℤ) (selected candidates : Candidates) : Type 0 where
  -- each candidate at most as often as it is there
  pub among : (q : RoutingCandidate → Bool) → count_of q selected ≤ count_of q candidates
  pub size : length selected ≡ (if ltb (length candidates) 2 then length candidates else 2)
  -- at most one candidate is better than one that is selected
  pub best : All (λ a. count_of (better_than key a) candidates ≤ 1) selected

module _ (key : RoutingCandidate → ℤ) (less : RoutingCandidate → RoutingCandidate → Bool)
    (by_key : (a b : RoutingCandidate) → less a b ≡ ltb_ℤ (key a) (key b)) where
  AreOrdered : Candidates → Type 0
  AreOrdered [] = Unit
  AreOrdered (x ∷ xs) = All (λ y. key x ≤ℤ key y) xs × AreOrdered xs
