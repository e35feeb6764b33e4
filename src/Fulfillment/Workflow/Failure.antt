-- ===== src/Fulfillment/Workflow/Failure.antt =====
-- The compensation of `OrderFulfillmentWorkflow`, and a failure after planning.
use supply_chain_execution.Common.{
  Bool, Bool-cases, List, Option, [], ap, arith, false, inl, inr, none, refl, some, sym, ℕ, ◌++◌,
  ◌==◌, ◌||◌, ◌∙◌, ◌∷◌, ◌≡◌,
}
use supply_chain_execution.Core.Dependencies.{DependencyGraph, Networkx, NodeType}
use supply_chain_execution.Core.Effect.{Result, ok, or_raise, raised, resume_inv, ◌>>=◌}
use supply_chain_execution.Core.Exceptions.{Error, workflow_error}
use supply_chain_execution.Core.Types.{EventType}
use supply_chain_execution.Core.Workflow.{has_step, mark_step_complete}
use supply_chain_execution.Events.Bus.{EventBus}
use supply_chain_execution.Fulfillment.Planning.{FulfillmentPlanResult, plan_fulfillment}
use supply_chain_execution.Fulfillment.Workflow.{
  Running, accept_order, allocate_name, begun, compensate_order, execute_fulfillment, is_over, mark,
  on_db, order_status_value, plan_name, publish_if, run_fulfillment, step_plan, step_validate,
  track, validate_name,
}
use supply_chain_execution.Persistence.Models.Events.{Json}
use supply_chain_execution.Persistence.Models.Fulfillment.{Order}
use supply_chain_execution.Persistence.Queries.Fulfillment.{get_order_with_lines}
use supply_chain_execution.Persistence.Session.{Env, Session}
use supply_chain_execution.Transportation.Routes.{Geography}

abbrev pub has_allocated : Running → Bool
has_allocated s = has_step allocate_name s.ctx.steps_completed

has_step-append :
    (name : ℕ) (xs : List ℕ) (x : ℕ)
    → has_step name (xs ++ x ∷ []) ≡ (has_step name xs || (x == name))
has_step-append name [] x = ground arith
has_step-append name (y ∷ xs) x = ground (arith, has_step-append name xs x)

-- A step with another name leaves the test as it is.
mark_other :
    (name : ℕ) (s : Running)
    → (name == allocate_name) ≡ false
    → has_allocated (mark name s).1 ≡ has_allocated s
unfolding mark_step_complete
mark_other name s other =
    has_step-append allocate_name s.ctx.steps_completed name ∙ ground (arith, other)

-- The order that was found, tracked and marked.
accept_order-has_allocated :
    (b : Bool) (order : Order) (s : Running)
    → has_allocated s ≡ b
    → has_allocated (accept_order order s).1 ≡ b
unfolding accept_order
accept_order-has_allocated b order s h = elim (Bool-cases (is_over order.status)) [
  | inl e ↦ rw e h
  | inr e ↦
      let tracked = track order.id NodeType.order (order_status_value order.status) s in
      rw e (mark_other validate_name (tracked.1) refl ∙ h)
]

step_validate-has_allocated :
    (b : Bool) (order_id : ℕ) (s : Running)
    → has_allocated s ≡ b
    → has_allocated (step_validate order_id s).1 ≡ b
unfolding step_validate
step_validate-has_allocated b order_id s h =
    let P : Running → Type 0 = λ t. has_allocated t ≡ b in
    let (r, t) = on_db (get_order_with_lines order_id) s in
    resume_inv P r _ t h λ found e. go found t h
  where
    go :
        (found : Option Order) (t : Running)
        → has_allocated t ≡ b
        → has_allocated ((or_raise found workflow_error >>= accept_order) t).1 ≡ b
    go none t k = k
    go (some order) t k = accept_order-has_allocated b order t k

module _ {F : Type 0} (geo : Geography F) (nx : Networkx) (max_stops : ℕ) (env : Env)
    (bus : EventBus) where
  step_plan-has_allocated :
      (b : Bool) (order_id : ℕ) (s : Running)
      → has_allocated s ≡ b
      → has_allocated (step_plan geo nx max_stops env bus order_id s).1 ≡ b
  unfolding step_plan
  step_plan-has_allocated b order_id s h =
      let P : Running → Type 0 = λ t. has_allocated t ≡ b in
      let (r, t) = on_db (plan_fulfillment geo.floats.ops env order_id) s in
      resume_inv P r _ t h λ result e.
        let k : P (mark plan_name t).1 = mark_other plan_name t refl ∙ h in
        let (r₂, t₂) =
          on_db
            (publish_if env bus EventType.fulfillment_planned "order" order_id (
              ("status", Json.str (order_status_value result.status))
              ∷ ("is_partial", Json.flag result.is_partial)
              ∷ []))
            (mark plan_name t).1 in
        resume_inv P r₂ _ t₂ k λ u e₂. k

  -- Where the order is accepted, and the step of planning raises, be it that the event bus fails
  -- when inventory has been reserved already: `execute` raises WorkflowError, and its compensation
  -- leaves the database as that step left it, so that no reservation is released.
  pub execute_fulfillment-unreleased :
      (order_id : ℕ) (graph : DependencyGraph) (db : Session) (order : Order) (s s' : Running)
      (e : Error)
      → step_validate order_id (begun graph db) ≡ (ok order, s)
      → step_plan geo nx max_stops env bus order_id s ≡ (raised e, s')
      → execute_fulfillment geo nx max_stops env bus order_id graph db ≡ (raised workflow_error, s')
  unfolding execute_fulfillment run_fulfillment compensate_order
  execute_fulfillment-unreleased order_id graph db order s s' e validated planned =
      let before : has_allocated s ≡ false =
        ap (λ (o : Result Order × Running). has_allocated o.1) (sym validated)
        ∙ step_validate-has_allocated false order_id (begun graph db) refl in
      let unmarked : has_allocated s' ≡ false =
        ap (λ (o : Result FulfillmentPlanResult × Running). has_allocated o.1) (sym planned)
        ∙ step_plan-has_allocated false order_id s before in
      rw (validated, planned, unmarked) refl
