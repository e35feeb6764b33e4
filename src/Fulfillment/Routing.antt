-- ===== src/Fulfillment/Routing.antt =====
-- src/nexusops/domain/fulfillment/routing.py. A cost is whole, as `_evaluate_candidates` makes it;
-- the score is a float, behind the interface of Core/Float. No candidate has an attribute
-- `routing_score`, so the last strategy sorts by `-total_available`.
pub mod Safety
pub mod Selection
pub mod Best
use text.Mathlib.Text.{◌==◌ as str_eq}
use supply_chain_execution.Common.{
  Bool, List, Option, String, [], false, filter, if◌then◌else◌, length, ltb, map, none, not, some,
  sorted, suc, take, true, ℕ, ◌*◌, ◌++◌, ◌-◌, ◌||◌, ◌∷◌,
}
use supply_chain_execution.Common.Int.{eqb_ℤ, ltb_ℤ, min_ℤ, negsuc, pos, sum_of, ℤ, ◌+ℤ◌, ◌-ℤ◌}
use supply_chain_execution.Core.Effect.{gets, or_raise, pure, raise_if, ◌>>=◌, ◌>>◌}
use supply_chain_execution.Core.Exceptions.{routing_conflict, zero_division_error}
use supply_chain_execution.Core.Float.{FloatOps}
use supply_chain_execution.Persistence.Models.Fulfillment.{
  FulfillmentPlan, Order, OrderLine, PlanStatus,
}
use supply_chain_execution.Persistence.Models.Warehouse.{Warehouse}
use supply_chain_execution.Persistence.Queries.Fulfillment.{
  add_plan, get_active_plan, get_order_with_lines,
}
use supply_chain_execution.Persistence.Queries.Inventory.{get_aggregated_available}
use supply_chain_execution.Persistence.Queries.Warehouse.{list_active}
use supply_chain_execution.Persistence.Session.{Db, Env, Session, draw_uuid}
use supply_chain_execution.Persistence.Table.{add}

pub record RoutingCandidate : Type 0 where
  pub warehouse_id : ℕ
  pub total_available : ℤ
  pub fulfillment_cost : ℤ
  pub transit_days : ℤ
  pub priority : ℤ
  pub can_fulfill_all : Bool
  pub line_coverage : List (ℕ × ℤ)

pub record RoutingDecision (F : Type 0) : Type 0 where
  pub order_id : ℕ
  pub strategy : String
  pub candidates : List RoutingCandidate
  pub selected_warehouses : List ℕ
  pub is_split_shipment : Bool
  pub estimated_total_cost : ℤ
  pub routing_score : F

-- `STRATEGIES`
abbrev pub is_strategy : String → Bool
is_strategy name =
    str_eq name "cost_optimized"
    || str_eq name "speed_optimized"
    || str_eq name "single_warehouse"
    || str_eq name "balanced"

abbrev pub effective_strategy : String → String
effective_strategy name = if is_strategy name then name else "cost_optimized"

abbrev pub still_needed : OrderLine → ℤ
still_needed line = line.quantity_ordered -ℤ line.quantity_allocated

-- The variables of the loop over the lines.
pub record Coverage : Type 0 where
  pub line_coverage : List (ℕ × ℤ)
  pub total_available : ℤ
  pub can_fulfill_all : Bool

unfoldable pub cover_lines : ℕ → Session → List OrderLine → Coverage → Coverage
cover_lines warehouse s [] c = c
cover_lines warehouse s (line ∷ lines) c =
    let covered = min_ℤ (get_aggregated_available warehouse line.sku_id s) (still_needed line) in
    cover_lines warehouse s lines (record {
      line_coverage = c.line_coverage ++ (line.id, covered) ∷ [];
      total_available = c.total_available +ℤ covered;
      can_fulfill_all = if ltb_ℤ covered (still_needed line) then false else c.can_fulfill_all;
    })

abbrev pub no_coverage : Coverage
no_coverage = record { line_coverage = []; total_available = pos 0; can_fulfill_all = true }

-- `n * priority`, of a priority.
abbrev pub times : ℕ → ℤ → ℤ
times n (pos m) = pos (n * m)
times n (negsuc m) = negsuc (n * suc m - 1)

abbrev pub candidate_of : Warehouse → Coverage → RoutingCandidate
candidate_of w c = record {
  warehouse_id = w.id;
  total_available = c.total_available;
  fulfillment_cost = times 10 w.fulfillment_priority +ℤ pos 50;
  transit_days = w.fulfillment_priority +ℤ pos 2;
  priority = w.fulfillment_priority;
  can_fulfill_all = c.can_fulfill_all;
  line_coverage = c.line_coverage;
}

unfoldable pub candidates_among : List OrderLine → Session → List Warehouse → List RoutingCandidate
candidates_among lines s [] = []
candidates_among lines s (w ∷ ws) =
    let rest = candidates_among lines s ws in
    let c = cover_lines w.id s lines no_coverage in
    if eqb_ℤ c.total_available (pos 0) then rest else candidate_of w c ∷ rest

-- `_evaluate_candidates`
unfoldable pub evaluate_candidates : Order → Session → List RoutingCandidate
evaluate_candidates order s = candidates_among order.lines s (list_active s)

-- `min(...)` and `max(...)`: the first of the best.
module _ (better : RoutingCandidate → RoutingCandidate → Bool) where
  unfoldable pub best_of : RoutingCandidate → List RoutingCandidate → RoutingCandidate
  best_of best [] = best
  best_of best (c ∷ cs) = best_of (if better c best then c else best) cs

  unfoldable pub best_among : List RoutingCandidate → List RoutingCandidate
  best_among [] = []
  best_among (c ∷ cs) = best_of c cs ∷ []

abbrev pub cheaper : RoutingCandidate → RoutingCandidate → Bool
cheaper a b = ltb_ℤ a.fulfillment_cost b.fulfillment_cost

abbrev pub faster : RoutingCandidate → RoutingCandidate → Bool
faster a b = ltb_ℤ a.transit_days b.transit_days

abbrev pub fuller : RoutingCandidate → RoutingCandidate → Bool
fuller a b = ltb_ℤ b.total_available a.total_available

-- The strategy `single_warehouse`, given the candidates that can fulfill everything.
abbrev pub select_single :
    List RoutingCandidate → List RoutingCandidate → Bool → List RoutingCandidate
select_single (c ∷ cs) candidates allow_partial = best_among cheaper (c ∷ cs)
select_single [] candidates allow_partial =
    if allow_partial then best_among fuller candidates else []

-- `_select_warehouses`
unfoldable pub select_warehouses : List RoutingCandidate → String → Bool → List RoutingCandidate
select_warehouses candidates strategy allow_partial =
    if str_eq strategy "single_warehouse"
    then select_single (filter (λ (c : RoutingCandidate). c.can_fulfill_all) candidates) candidates
        allow_partial
    else if str_eq strategy "speed_optimized"
    then take 2 (sorted faster candidates)
    else if str_eq strategy "cost_optimized"
    then take 2 (sorted cheaper candidates)
    else take 2 (sorted fuller candidates)

module _ {F : Type 0} (ops : FloatOps F) where
  open ops use {decimal, of_int, add, mul, div}

  abbrev pub inverse : F → F
  inverse x = div (decimal 10 1) (add (decimal 10 1) x)

  -- `_compute_routing_score`, with `none` where it divides by zero: a sum of costs of -1, or a mean
  -- of -1 days.
  unfoldable pub compute_routing_score : List RoutingCandidate → String → Option F
  compute_routing_score [] strategy = some (decimal 0 1)
  compute_routing_score (c ∷ cs) strategy =
      let selected : List RoutingCandidate = c ∷ cs in
      let coverage = of_int (sum_of (λ (x : RoutingCandidate). x.total_available) selected) in
      let cost = sum_of (λ (x : RoutingCandidate). x.fulfillment_cost) selected in
      let days = sum_of (λ (x : RoutingCandidate). x.transit_days) selected in
      let cost_factor = inverse (of_int cost) in
      let speed_factor = inverse (div (of_int days) (of_int (pos (length selected)))) in
      if eqb_ℤ cost (negsuc 0) || eqb_ℤ (days +ℤ pos (length selected)) (pos 0)
      then none
      else if str_eq strategy "speed_optimized"
      then some (add (mul coverage (decimal 3 1)) (mul speed_factor (decimal 7 1)))
      else some (add (mul coverage (decimal 5 1)) (mul cost_factor (decimal 5 1)))

abbrev pub new_plan : ℕ → ℕ → String → RoutingCandidate → FulfillmentPlan
new_plan id order strategy c = record {
  id = id;
  order_id = order;
  warehouse_id = c.warehouse_id;
  status = PlanStatus.planned;
  estimated_cost = c.fulfillment_cost;
  line_coverage = c.line_coverage;
  strategy = strategy;
  is_partial = not c.can_fulfill_all;
}

-- One candidate of `_create_fulfillment_plans`, once its active plan has been looked up.
unfoldable pub create_plan :
    Env → ℕ → String → RoutingCandidate → Option FulfillmentPlan → Db (Unit {0})
create_plan env order strategy c (some existing) = pure tt
create_plan env order strategy c none = do
  id ← draw_uuid env
  add_plan (new_plan id order strategy c)

unfoldable pub create_fulfillment_plans : Env → ℕ → String → List RoutingCandidate → Db (Unit {0})
create_fulfillment_plans env order strategy [] = pure tt
create_fulfillment_plans env order strategy (c ∷ cs) = do
  existing ← get_active_plan order c.warehouse_id
  create_plan env order strategy c existing
  create_fulfillment_plans env order strategy cs

abbrev pub is_empty : List RoutingCandidate → Bool
is_empty [] = true
is_empty (c ∷ cs) = false

module _ {F : Type 0} (ops : FloatOps F) (env : Env) where
  -- `route_order`, from the order and the strategy on.
  unfoldable pub route_with : Order → String → Db (RoutingDecision F)
  route_with order strategy = do
    candidates ← gets (evaluate_candidates order)
    raise_if (is_empty candidates) routing_conflict
    let selected = select_warehouses candidates strategy order.allow_partial_fulfillment
    raise_if (is_empty selected) routing_conflict
    score ← or_raise (compute_routing_score ops selected strategy) zero_division_error
    create_fulfillment_plans env order.id strategy selected
    pure (record {
      order_id = order.id;
      strategy = strategy;
      candidates = candidates;
      selected_warehouses = map (λ (c : RoutingCandidate). c.warehouse_id) selected;
      is_split_shipment = ltb 1 (length selected);
      estimated_total_cost = sum_of (λ (c : RoutingCandidate). c.fulfillment_cost) selected;
      routing_score = score;
    })

  unfoldable pub route_order : ℕ → String → Db (RoutingDecision F)
  route_order order_id requested = do
    found ← get_order_with_lines order_id
    order ← or_raise found routing_conflict
    route_with order (effective_strategy requested)
