-- ===== src/Persistence/Queries/Fulfillment.antt =====
-- src/nexusops/repositories/fulfillment.py
use supply_chain_execution.Common.{Bool, List, Option, false, true, ℕ, ◌&&◌, ◌==◌}
use supply_chain_execution.Core.Effect.{ok, or_raise}
use supply_chain_execution.Core.Exceptions.{multiple_results_found, not_found}
use supply_chain_execution.Persistence.Models.Fulfillment.{FulfillmentPlan, Order, PlanStatus}
use supply_chain_execution.Persistence.Session.{Db, Session, flush_all}
use supply_chain_execution.Persistence.Table.{add, get, put, scalar_one_or_none, select}

abbrev pub order_id_of : Order → ℕ
order_id_of o = o.id

abbrev pub plan_id : FulfillmentPlan → ℕ
plan_id x = x.id

-- `get_with_lines` selects by the primary key; `get_by_id_or_raise` asks the session for it.
unfoldable pub get_order_with_lines : ℕ → Db (Option Order)
get_order_with_lines id s =
    or_raise (scalar_one_or_none (select (λ o. o.id == id) s.orders)) multiple_results_found s

unfoldable pub get_order : ℕ → Db Order
get_order id s = or_raise (get order_id_of id s.orders) (not_found id) s

unfoldable pub put_order : Order → Db (Unit {0})
put_order o s = (ok tt, record s { orders = put order_id_of o s.orders })

unfoldable pub get_plan : ℕ → Db FulfillmentPlan
get_plan id s = or_raise (get plan_id id s.plans) (not_found id) s

unfoldable pub put_plan : FulfillmentPlan → Db (Unit {0})
put_plan p s = (ok tt, record s { plans = put plan_id p s.plans })

unfoldable pub add_plan : FulfillmentPlan → Db (Unit {0})
add_plan p s = (ok tt, flush_all (record s { plans = add p s.plans }))

unfoldable pub get_plans_for_order : ℕ → Session → List FulfillmentPlan
get_plans_for_order order s = select (λ p. p.order_id == order) s.plans

-- `status in ("planned", "executing")`
abbrev pub is_open_plan : PlanStatus → Bool
is_open_plan PlanStatus.planned = true
is_open_plan PlanStatus.executing = true
is_open_plan PlanStatus.completed = false

unfoldable pub get_active_plan : ℕ → ℕ → Db (Option FulfillmentPlan)
get_active_plan order warehouse s =
    or_raise
      (scalar_one_or_none (
        select
          (λ p. (p.order_id == order) && (p.warehouse_id == warehouse) && is_open_plan p.status)
          s.plans))
      multiple_results_found s
