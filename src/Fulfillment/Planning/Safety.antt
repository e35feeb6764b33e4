-- ===== src/Fulfillment/Planning/Safety.antt =====
-- Planning on the balances, and the errors of `plan_fulfillment`.
use mathlib.Core.Path.{subst}
use supply_chain_execution.Common.{Bool-cases, List, [], inl, inr, refl, sym, ℕ, ◌+◌, ◌∷◌, ◌≡◌, ◌⊎◌}
use supply_chain_execution.Common.Int.{leb_ℤ, pos}
use supply_chain_execution.Core.Effect.{
  Result, ok, or_raise, pure, raise, raised, recover, resume, resume_inv,
}
use supply_chain_execution.Core.Exceptions.{workflow_error}
use supply_chain_execution.Core.Float.{FloatOps}
use supply_chain_execution.Fulfillment.Planning.{
  Allocating, FulfillmentPlanResult, allocate_inventory, allocate_lines, allocate_one, build_plan,
  check_order, has_no_lines, is_terminal, keep_result, plan_fulfillment, plan_order, request_for,
  skip_line, validate_order,
}
use supply_chain_execution.Fulfillment.Routing.{route_order, still_needed}
use supply_chain_execution.Fulfillment.Routing.Safety.{
  get_order_with_lines_state, route_order-IsSolvent,
}
use supply_chain_execution.Inventory.Allocation.{AllocationResult}
use supply_chain_execution.Inventory.Allocation.Engine.{allocate}
use supply_chain_execution.Inventory.Allocation.Solvency.{IsSolvent, allocate-IsSolvent}
use supply_chain_execution.Inventory.Stock.{or_raise_state}
use supply_chain_execution.Persistence.Models.Fulfillment.{Order, OrderLine}
use supply_chain_execution.Persistence.Queries.Fulfillment.{get_order_with_lines, put_order}
use supply_chain_execution.Persistence.Session.{Env, Session}

check_order-IsSolvent : (o : Order) (s : Session) → IsSolvent s → IsSolvent (check_order o s).1
unfolding check_order put_order
check_order-IsSolvent o s h = elim (Bool-cases (has_no_lines o.lines)) [
  | inl e ↦ rw e h
  | inr e ↦ elim (Bool-cases (is_terminal o.status)) [ inl f ↦ rw (e, f) h | inr f ↦ rw (e, f) h ]
]

validate_order-IsSolvent :
    (order : ℕ) (s : Session) → IsSolvent s → IsSolvent (validate_order order s).1
unfolding validate_order
validate_order-IsSolvent order s h =
    let (r, s₁) = get_order_with_lines order s in
    let h₁ : IsSolvent s₁ = subst IsSolvent (sym (get_order_with_lines_state order s)) h in
    resume_inv IsSolvent r _ s₁ h₁ λ found e.
      let (r₂, s₂) = or_raise found workflow_error s₁ in
      let h₂ : IsSolvent s₂ = subst IsSolvent (sym (or_raise_state found workflow_error s₁)) h₁ in
      resume_inv IsSolvent r₂ _ s₂ h₂ λ o e₂. check_order-IsSolvent o s₂ h₂

module _ {F : Type 0} (ops : FloatOps F) (env : Env) where
  allocate_one-IsSolvent :
      (order : Order) (w : ℕ) (line : OrderLine) (rest : List OrderLine) (a : Allocating)
      (s : Session)
      → IsSolvent s
      → IsSolvent (allocate_one ops env order w line rest a s).1
  unfolding allocate_one keep_result put_order
  allocate_one-IsSolvent order w line rest a s h =
      elim (Bool-cases (leb_ℤ (still_needed line) (pos 0))) [
        | inl enough ↦ rw enough h
        | inr needs ↦ rw needs (
            let request = request_for order line w in
            let (r, s₁) = allocate ops env request s in
            go r s₁ (allocate-IsSolvent ops env request s h))
      ]
    where
      go :
          (r : Result AllocationResult) (s₁ : Session)
          → IsSolvent s₁
          → let (r₂, s₂) = resume r (keep_result order line rest a) s₁ in
            IsSolvent (recover r₂ (λ e. pure (skip_line line a)) s₂).1
      go (raised e) s₁ k = k
      go (ok r) s₁ k = k

  allocate_lines-IsSolvent :
      (order : Order) (w : ℕ) (lines : List OrderLine) (a : Allocating) (s : Session)
      → IsSolvent s
      → IsSolvent (allocate_lines ops env order w lines a s).1
  unfolding allocate_lines
  allocate_lines-IsSolvent order w [] a s h = h
  allocate_lines-IsSolvent order w (line ∷ lines) a s h =
      let (r, s₁) = allocate_one ops env order w line lines a s in
      let h₁ = allocate_one-IsSolvent order w line lines a s h in
      resume_inv IsSolvent r _ s₁ h₁ λ a' e. allocate_lines-IsSolvent order w lines a' s₁ h₁

  allocate_inventory-IsSolvent :
      (order : Order) (ws : List ℕ) (lines : List OrderLine) (results : List AllocationResult)
      (s : Session)
      → IsSolvent s
      → IsSolvent (allocate_inventory ops env order ws lines results s).1
  unfolding allocate_inventory
  allocate_inventory-IsSolvent order [] lines results s h = h
  allocate_inventory-IsSolvent order (w ∷ ws) lines results s h =
      let start : Allocating = record { visited = []; results = results } in
      let (r, s₁) = allocate_lines ops env order w lines start s in
      let h₁ = allocate_lines-IsSolvent order w lines start s h in
      resume_inv IsSolvent r _ s₁ h₁
        λ a e. allocate_inventory-IsSolvent order ws a.visited a.results s₁ h₁

  plan_order-IsSolvent :
      (workflow order_id : ℕ) (order : Order) (s : Session)
      → IsSolvent s
      → IsSolvent (plan_order ops env workflow order_id order s).1
  unfolding plan_order build_plan put_order
  plan_order-IsSolvent workflow order_id order s h =
      let (r, s₁) = route_order ops env order_id order.routing_strategy s in
      let h₁ = route_order-IsSolvent ops env order_id order.routing_strategy s h in
      resume_inv IsSolvent r _ s₁ h₁ λ routing e.
        let (r₂, s₂) =
          allocate_inventory ops env order routing.selected_warehouses order.lines [] s₁ in
        let h₂ =
          allocate_inventory-IsSolvent order routing.selected_warehouses order.lines [] s₁ h₁ in
        resume_inv IsSolvent r₂ _ s₂ h₂ λ lines_results e₂. h₂

  -- `plan_fulfillment` of an order, whatever it meets on the way: where it ends, returning or
  -- raising, no balance has more units committed than are on hand if none had before; and if it
  -- raises, it raises WorkflowError.
  pub plan_fulfillment-IsSolvent :
      (order_id : ℕ) (s : Session)
      → IsSolvent s
      → let (r, s') = plan_fulfillment ops env order_id s in
        IsSolvent s'
        × ((r ≡ raised workflow_error) ⊎ ((result : FulfillmentPlanResult) × (r ≡ ok result)))
  unfolding plan_fulfillment
  plan_fulfillment-IsSolvent order_id s h =
      let s₁ = record s { draws = s.draws + 1 } in
      let (r, s₂) = validate_order order_id s₁ in
      let h₂ = validate_order-IsSolvent order_id s₁ h in
      let body = plan_order ops env (env.uuid4 s.draws) order_id in
      go (resume r body s₂).0 (resume r body s₂).1 (
        resume_inv IsSolvent r body s₂ h₂
          λ o e. plan_order-IsSolvent (env.uuid4 s.draws) order_id o s₂ h₂)
    where
      go :
          (r : Result FulfillmentPlanResult) (t : Session)
          → IsSolvent t
          → let (r', t') = recover r (λ e. raise workflow_error) t in
            IsSolvent t'
            × ((r' ≡ raised workflow_error) ⊎ ((result : FulfillmentPlanResult) × (r' ≡ ok result)))
      go (ok x) t k = (k, inr (x, refl))
      go (raised e) t k = (k, inl refl)
