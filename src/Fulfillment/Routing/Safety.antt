-- ===== src/Fulfillment/Routing/Safety.antt =====
-- Routing on the balances: it flushes them, and changes none.
use mathlib.Core.Path.{subst}
use supply_chain_execution.Common.{
  Bool-cases, List, Option, Option-cases, String, [], inl, inr, none, some, sym, ℕ, ◌+◌, ◌∷◌, ◌≡◌,
}
use supply_chain_execution.Core.Effect.{or_raise, resume_inv}
use supply_chain_execution.Core.Exceptions.{routing_conflict}
use supply_chain_execution.Core.Float.{FloatOps}
use supply_chain_execution.Fulfillment.Routing.{
  RoutingCandidate, compute_routing_score, create_fulfillment_plans, create_plan,
  effective_strategy, evaluate_candidates, is_empty, new_plan, route_order, route_with,
  select_warehouses,
}
use supply_chain_execution.Inventory.Allocation.Solvency.{Covers, IsSolvent}
use supply_chain_execution.Inventory.Stock.{AllObjects-flush, or_raise_state}
use supply_chain_execution.Persistence.Models.Fulfillment.{FulfillmentPlan, Order}
use supply_chain_execution.Persistence.Queries.Fulfillment.{
  add_plan, get_active_plan, get_order_with_lines, put_order,
}
use supply_chain_execution.Persistence.Session.{Env, Session, flush_all}

-- What an operation that touches no balance but flushes keeps.
add_plan-IsSolvent : (p : FulfillmentPlan) (s : Session) → IsSolvent s → IsSolvent (add_plan p s).1
unfolding add_plan flush_all
add_plan-IsSolvent p s h = AllObjects-flush Covers s.balances h

put_order-IsSolvent : (o : Order) (s : Session) → IsSolvent s → IsSolvent (put_order o s).1
unfolding put_order
put_order-IsSolvent o s h = h

create_plan-IsSolvent :
    (env : Env) (order : ℕ) (strategy : String) (c : RoutingCandidate) (o : Option FulfillmentPlan)
    (s : Session)
    → IsSolvent s
    → IsSolvent (create_plan env order strategy c o s).1
unfolding create_plan
create_plan-IsSolvent env order strategy c (some p) s h = h
create_plan-IsSolvent env order strategy c none s h =
    add_plan-IsSolvent (new_plan (env.uuid4 s.draws) order strategy c)
      (record s { draws = s.draws + 1 }) h

get_active_plan_state : (order w : ℕ) (s : Session) → (get_active_plan order w s).1 ≡ s
unfolding get_active_plan
get_active_plan_state order w s = or_raise_state _ _ s

pub get_order_with_lines_state : (order : ℕ) (s : Session) → (get_order_with_lines order s).1 ≡ s
unfolding get_order_with_lines
get_order_with_lines_state order s = or_raise_state _ _ s

create_fulfillment_plans-IsSolvent :
    (env : Env) (order : ℕ) (strategy : String) (cs : List RoutingCandidate) (s : Session)
    → IsSolvent s
    → IsSolvent (create_fulfillment_plans env order strategy cs s).1
unfolding create_fulfillment_plans
create_fulfillment_plans-IsSolvent env order strategy [] s h = h
create_fulfillment_plans-IsSolvent env order strategy (c ∷ cs) s h =
    let (r, s₁) = get_active_plan order c.warehouse_id s in
    let h₁ : IsSolvent s₁ =
      subst IsSolvent (sym (get_active_plan_state order c.warehouse_id s)) h in
    resume_inv IsSolvent r _ s₁ h₁ λ o e.
      let (r₂, s₂) = create_plan env order strategy c o s₁ in
      let h₂ = create_plan-IsSolvent env order strategy c o s₁ h₁ in
      resume_inv IsSolvent r₂ _ s₂ h₂
        λ u e₂. create_fulfillment_plans-IsSolvent env order strategy cs s₂ h₂

module _ {F : Type 0} (ops : FloatOps F) (env : Env) where
  route_with-IsSolvent :
      (o : Order) (strategy : String) (s : Session)
      → IsSolvent s
      → IsSolvent (route_with ops env o strategy s).1
  unfolding route_with
  route_with-IsSolvent o strategy s h =
      let candidates = evaluate_candidates o s in
      let selected = select_warehouses candidates strategy o.allow_partial_fulfillment in
      elim (Bool-cases (is_empty candidates)) [
        | inl e ↦ rw e h
        | inr e ↦ elim (Bool-cases (is_empty selected)) [
          | inl f ↦ rw (e, f) h
          | inr f ↦ elim (Option-cases (compute_routing_score ops selected strategy)) [
            | inl undefined ↦ rw (e, f, undefined) h
            | inr (score, defined) ↦
                rw (e, f, defined)
                  (let (r, s₁) = create_fulfillment_plans env o.id strategy selected s in
                    let h₁ = create_fulfillment_plans-IsSolvent env o.id strategy selected s h in
                    resume_inv IsSolvent r _ s₁ h₁ λ u e₂. h₁)
          ]
        ]
      ]

  pub route_order-IsSolvent :
      (order : ℕ) (requested : String) (s : Session)
      → IsSolvent s
      → IsSolvent (route_order ops env order requested s).1
  unfolding route_order
  route_order-IsSolvent order requested s h =
      let (r, s₁) = get_order_with_lines order s in
      let h₁ : IsSolvent s₁ = subst IsSolvent (sym (get_order_with_lines_state order s)) h in
      resume_inv IsSolvent r _ s₁ h₁ λ found e.
        let (r₂, s₂) = or_raise found routing_conflict s₁ in
        let h₂ : IsSolvent s₂ =
          subst IsSolvent (sym (or_raise_state found routing_conflict s₁)) h₁ in
        resume_inv IsSolvent r₂ _ s₂ h₂
          λ o e₂. route_with-IsSolvent o (effective_strategy requested) s₂ h₂
