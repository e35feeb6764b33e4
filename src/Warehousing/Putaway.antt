-- ===== src/Warehousing/Putaway.antt =====
-- src/nexusops/domain/warehouse/putaway.py
pub mod Plan
use text.Mathlib.Text.{◌==◌ as str_eq}
use supply_chain_execution.Common.{
  Bool, List, Option, String, [], if◌then◌else◌, ltb, none, not, some, sorted, ℕ, ◌++◌, ◌∷◌,
}
use supply_chain_execution.Common.Int.{leb_ℤ, min_ℤ, pos, ℤ, ◌-ℤ◌}
use supply_chain_execution.Core.Effect.{for_each, gets, pure, raise_if, ◌>>=◌, ◌>>◌}
use supply_chain_execution.Core.Exceptions.{value_error}
use supply_chain_execution.Core.Types.{WarehouseTaskStatus, WarehouseTaskType, same_task_type}
use supply_chain_execution.Persistence.Models.Warehouse.{WarehouseLocation}
use supply_chain_execution.Persistence.Queries.Warehouse.{
  add_task, get_task, list_pickable, put_task,
}
use supply_chain_execution.Persistence.Session.{Db, Env, draw_uuid, truthy_or}

pub record PutawayRecommendation : Type 0 where
  pub quantity : ℤ
  pub target_location_id : ℕ
  pub capacity_remaining : ℤ

-- `loc.capacity_units or 100`
abbrev pub capacity_of : WarehouseLocation → ℤ
capacity_of l = truthy_or l.capacity_units (pos 100)

-- The loop of `plan_putaway` over the sorted locations: the recommendations, and what remains.
unfoldable pub assign_locations : List WarehouseLocation → ℤ → List PutawayRecommendation × ℤ
assign_locations [] remaining = ([], remaining)
assign_locations (l ∷ ls) remaining =
    let quantity = min_ℤ remaining (capacity_of l) in
    let skipped = assign_locations ls remaining in
    let rest = assign_locations ls (remaining -ℤ quantity) in
    if leb_ℤ remaining (pos 0)
    then ([], remaining)
    else if leb_ℤ quantity (pos 0)
    then skipped
    else (
      record {
        quantity = quantity;
        target_location_id = l.id;
        capacity_remaining = capacity_of l -ℤ quantity;
      }
          ∷ rest.0,
      rest.1,
    )

-- `ZONE_PRIORITY.get(zone, 99)`
unfoldable pub zone_priority : String → ℕ
zone_priority zone =
    if str_eq zone "A"
    then 1
    else if str_eq zone "B"
    then 2
    else if str_eq zone "C"
    then 3
    else if str_eq zone "D"
    then 4
    else if str_eq zone "STAGING"
    then 0
    else 99

-- `VELOCITY_ZONE_MAP.get(velocity_class, "B")`
unfoldable pub velocity_zone : String → String
velocity_zone velocity =
    if str_eq velocity "high" then "A" else if str_eq velocity "low" then "C" else "B"

abbrev pub earlier_zone : WarehouseLocation → WarehouseLocation → Bool
earlier_zone a b = ltb (zone_priority a.zone) (zone_priority b.zone)

abbrev pub or_all : List WarehouseLocation → List WarehouseLocation → List WarehouseLocation
or_all [] others = others
or_all (l ∷ ls) others = l ∷ ls

-- `_create_putaway_tasks`
unfoldable pub create_putaway_tasks :
    Env → ℕ → ℕ → Option ℕ → List PutawayRecommendation → List ℕ → Db (List ℕ)
create_putaway_tasks env warehouse sku source recommendations ids =
    for_each
      (λ (r : PutawayRecommendation) (acc : List ℕ). do
        id ← draw_uuid env
        add_task (record {
          id = id;
          warehouse_id = warehouse;
          task_type = WarehouseTaskType.putaway;
          status = WarehouseTaskStatus.pending;
          priority = pos 5;
          assigned_to = none;
          source_location_id = source;
          target_location_id = some r.target_location_id;
          sku_id = some sku;
          quantity = some r.quantity;
          reference_type = none;
          reference_id = none;
          completed_at = none;
        })
        pure (acc ++ id ∷ []))
      recommendations ids

unfoldable pub plan_putaway :
    Env → ℕ → ℕ → ℤ → String → Option ℕ → Db (List PutawayRecommendation × List ℕ)
plan_putaway env warehouse sku quantity velocity source = do
  preferred ← gets (list_pickable warehouse (some (velocity_zone velocity)))
  others ← gets (list_pickable warehouse none)
  let plan = assign_locations (sorted earlier_zone (or_all preferred others)) quantity
  ids ← create_putaway_tasks env warehouse sku source plan.0 []
  pure (plan.0, ids)

unfoldable pub execute_putaway : ℕ → String → Db (Unit {0})
execute_putaway id operator = do
  t ← get_task id
  raise_if (not (same_task_type t.task_type WarehouseTaskType.putaway)) value_error
  put_task (record t { status = WarehouseTaskStatus.completed; assigned_to = some operator })
