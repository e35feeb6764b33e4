-- ===== src/Fulfillment/Generation/Draft.antt =====
-- The shipments that `generate_for_order` makes.
use mathlib.Core.Path.{subst}
use supply_chain_execution.Common.{
  Bool-cases, List, Option-cases, [], if-false, if-true, inl, inr, refl, sym, ℕ, ◌++◌, ◌+◌, ◌∷◌,
  ◌≡◌,
}
use supply_chain_execution.Common.Int.{ℤ}
use supply_chain_execution.Core.Effect.{resume_inv, ◌>>=◌}
use supply_chain_execution.Core.Types.{ShipmentStatus}
use supply_chain_execution.Fulfillment.Generation.{
  add_stops, generate_for_order, generate_from_plan, generate_open, generate_planned,
  generate_shipment, new_shipment,
}
use supply_chain_execution.Fulfillment.Shipments.Trail.{
  AllTracked, IsTracked, created, transition_state-AllTracked,
}
use supply_chain_execution.Inventory.Stock.{AllObjects-add, AllObjects-flush}
use supply_chain_execution.Persistence.Models.Fulfillment.{FulfillmentPlan, Order}
use supply_chain_execution.Persistence.Models.Transport.{Shipment}
use supply_chain_execution.Persistence.Models.Warehouse.{Warehouse}
use supply_chain_execution.Persistence.Queries.Fulfillment.{
  get_order, get_plan, get_plans_for_order, is_open_plan, order_id_of, plan_id, put_plan,
}
use supply_chain_execution.Persistence.Queries.Transport.{add_shipment, add_stop}
use supply_chain_execution.Persistence.Queries.Warehouse.{get_warehouse, warehouse_id_of}
use supply_chain_execution.Persistence.Session.{Db, Env, Session, flush_all}
use supply_chain_execution.Persistence.Table.{add, get}

abbrev pub IsPlanned : Shipment → Type 0
IsPlanned x = x.status ≡ ShipmentStatus.planned

new_shipment-IsTracked :
    (id : ℕ) (now : ℤ) (o : Order) (w : Warehouse) → IsTracked (new_shipment id now o w)
new_shipment-IsTracked id now o w = record { trail = created now; version = refl }

generate_shipment-AllTracked :
    (env : Env) (plan : FulfillmentPlan) (o : Order) (w : Warehouse) (s : Session)
    → AllTracked s
    → AllTracked (generate_shipment env plan o w s).1
unfolding generate_shipment add_shipment add_stops add_stop put_plan flush_all
generate_shipment-AllTracked env plan o w s h =
    let x = new_shipment (env.uuid4 (s.draws + 1 + 1)) (env.now (s.draws + 1)) o w in
    AllObjects-flush IsTracked (add x s.shipments)
      (AllObjects-add IsTracked x s.shipments (new_shipment-IsTracked _ _ o w) h)

generate_from_plan-AllTracked :
    (env : Env) (id : ℕ) (s : Session) → AllTracked s → AllTracked (generate_from_plan env id s).1
unfolding generate_from_plan get_plan get_order get_warehouse
generate_from_plan-AllTracked env id s h = elim (Option-cases (get plan_id id s.plans)) [
  | inl e ↦ rw e h
  | inr (plan, e) ↦ elim (Option-cases (get order_id_of plan.order_id s.orders)) [
    | inl f ↦ rw (e, f) h
    | inr (o, f) ↦ elim (Option-cases (get warehouse_id_of plan.warehouse_id s.warehouses)) [
      | inl g ↦ rw (e, f, g) h
      | inr (w, g) ↦ rw (e, f, g) (generate_shipment-AllTracked env plan o w s h)
    ]
  ]
]

generate_planned-AllTracked :
    (env : Env) (id : ℕ) (s : Session) → AllTracked s → AllTracked (generate_planned env id s).1
unfolding generate_planned
generate_planned-AllTracked env id s h =
    let (r, s₁) = generate_from_plan env id s in
    let h₁ = generate_from_plan-AllTracked env id s h in
    resume_inv AllTracked r _ s₁ h₁
      λ x e. transition_state-AllTracked env ShipmentStatus.planned x.id s₁ h₁

generate_open-AllTracked :
    (env : Env) (plans : List FulfillmentPlan) (made : List Shipment) (s : Session)
    → AllTracked s
    → AllTracked (generate_open env plans made s).1
unfolding generate_open
generate_open-AllTracked env [] made s h = h
generate_open-AllTracked env (plan ∷ plans) made s h =
    let with_plan : Db (List Shipment) =
      generate_planned env plan.id
      >>= (λ (x : Shipment). generate_open env plans (made ++ x ∷ [])) in
    let skipped = generate_open env plans made in
    let P : Db (List Shipment) → Type 0 = λ m. AllTracked (m s).1 in
    let (r, s₁) = generate_planned env plan.id s in
    let h₁ = generate_planned-AllTracked env plan.id s h in
    elim (Bool-cases (is_open_plan plan.status)) [
      | inl e ↦ subst P (sym (if-true _ with_plan skipped e)) (
          resume_inv AllTracked r _ s₁ h₁
            λ x e₂. generate_open-AllTracked env plans (made ++ x ∷ []) s₁ h₁)
      | inr e ↦
          subst P (sym (if-false _ with_plan skipped e))
            (generate_open-AllTracked env plans made s h)
    ]

-- Where every shipment of the session has a history that is a path through the transition table,
-- and as many entries as its version says, so has every shipment after `generate_for_order`, the
-- new ones included, whether it returns or raises.
pub generate_for_order-AllTracked :
    (env : Env) (order : ℕ) (s : Session)
    → AllTracked s
    → AllTracked (generate_for_order env order s).1
unfolding generate_for_order
generate_for_order-AllTracked env order s h =
    generate_open-AllTracked env (get_plans_for_order order s) [] s h
