-- ===== src/Warehousing/Picking.antt =====
-- src/nexusops/domain/warehouse/pick_pack.py
pub mod Pick
use supply_chain_execution.Common.{
  Bool, List, Option, String, [], false, if◌then◌else◌, none, not, some, suc, zero, ℕ, ◌++◌, ◌∷◌,
}
use supply_chain_execution.Common.Int.{eqb_ℤ, leb_ℤ, max_ℤ, pos, ℤ, ◌+ℤ◌, ◌-ℤ◌}
use supply_chain_execution.Core.Effect.{for_each, gets, or_raise, pure, raise_if, ◌>>=◌, ◌>>◌}
use supply_chain_execution.Core.Exceptions.{insufficient_inventory, value_error}
use supply_chain_execution.Core.Types.{WarehouseTaskStatus, WarehouseTaskType, same_task_type}
use supply_chain_execution.Inventory.Allocation.{put_if_found}
use supply_chain_execution.Persistence.Models.Inventory.{InventoryBalance, available}
use supply_chain_execution.Persistence.Models.Warehouse.{WarehouseLocation, WarehouseTask}
use supply_chain_execution.Persistence.Queries.Inventory.{get_balance}
use supply_chain_execution.Persistence.Queries.Warehouse.{
  add_task, get_task, list_pickable, put_task,
}
use supply_chain_execution.Persistence.Session.{Db, Env, draw_now, draw_uuid}

pub record PickLine : Type 0 where
  pub order_line_id : ℕ
  pub sku_id : ℕ
  pub quantity : ℤ

-- A line of a wave: the pick line with the location and task that it was given.
pub record WaveLine : Type 0 where
  pub line : PickLine
  pub location_id : ℕ
  pub task_id : ℕ

-- `balance and balance.available >= quantity`
abbrev pub holds_enough : ℤ → Option InventoryBalance → Bool
holds_enough quantity none = false
holds_enough quantity (some b) = leb_ℤ quantity (available b)

-- The loop of `_find_pick_location`; what follows it returns None either way.
unfoldable pub find_pick_location :
    ℕ → ℕ → ℤ → List WarehouseLocation → Db (Option WarehouseLocation)
find_pick_location warehouse sku quantity [] = do
  unplaced ← get_balance warehouse sku none
  pure none
find_pick_location warehouse sku quantity (l ∷ ls) = do
  b ← get_balance warehouse sku (some l.id)
  if holds_enough quantity b then pure (some l) else find_pick_location warehouse sku quantity ls

abbrev pub new_pick_task : ℕ → ℕ → ℕ → PickLine → ℕ → WarehouseTask
new_pick_task id warehouse order line location = record {
  id = id;
  warehouse_id = warehouse;
  task_type = WarehouseTaskType.pick;
  status = WarehouseTaskStatus.pending;
  priority = pos 3;
  assigned_to = none;
  source_location_id = some location;
  target_location_id = none;
  sku_id = some line.sku_id;
  quantity = some line.quantity;
  reference_type = some "order";
  reference_id = some order;
  completed_at = none;
}

unfoldable pub pick_line : Env → ℕ → ℕ → PickLine → List WaveLine → Db (List WaveLine)
pick_line env warehouse order line acc = do
  locations ← gets (list_pickable warehouse none)
  found ← find_pick_location warehouse line.sku_id line.quantity locations
  l ← or_raise found (insufficient_inventory line.sku_id line.quantity (pos 0) (some warehouse))
  id ← draw_uuid env
  add_task (new_pick_task id warehouse order line l.id)
  pure (acc ++ record { line = line; location_id = l.id; task_id = id } ∷ [])

unfoldable pub create_pick_wave : Env → ℕ → ℕ → List PickLine → Db (ℕ × List WaveLine)
create_pick_wave env warehouse order lines = do
  wave ← draw_uuid env
  picked ← for_each (pick_line env warehouse order) lines []
  pure (wave, picked)

-- The counters of the balance that was picked from.
abbrev pub picked : ℤ → InventoryBalance → InventoryBalance
picked quantity b = record b {
  on_hand = b.on_hand -ℤ quantity;
  allocated = max_ℤ (pos 0) (b.allocated -ℤ quantity);
  version = b.version +ℤ pos 1;
}

-- `if task.source_location_id and task.sku_id and task.quantity:` and its body.
unfoldable pub pick_stock : ℕ → Option ℕ → Option ℕ → Option ℤ → Db (Unit {0})
pick_stock warehouse (some location) (some sku) (some quantity) =
    if eqb_ℤ quantity (pos 0)
    then pure tt
    else do found ← get_balance warehouse sku (some location); put_if_found (picked quantity) found
pick_stock warehouse _ _ _ = pure tt

unfoldable pub complete_pick : Env → ℕ → String → Db (Unit {0})
complete_pick env id operator = do
  t ← get_task id
  raise_if (not (same_task_type t.task_type WarehouseTaskType.pick)) value_error
  now ← draw_now env
  put_task (record t {
    status = WarehouseTaskStatus.completed;
    assigned_to = some operator;
    completed_at = some now;
  })
  pick_stock t.warehouse_id t.source_location_id t.sku_id t.quantity

unfoldable pub create_pack_tasks : Env → ℕ → ℕ → ℕ → List ℕ → Db (List ℕ)
create_pack_tasks env warehouse order zero ids = pure ids
create_pack_tasks env warehouse order (suc n) ids = do
  id ← draw_uuid env
  add_task (record {
    id = id;
    warehouse_id = warehouse;
    task_type = WarehouseTaskType.pack;
    status = WarehouseTaskStatus.pending;
    priority = pos 5;
    assigned_to = none;
    source_location_id = none;
    target_location_id = none;
    sku_id = none;
    quantity = none;
    reference_type = some "order";
    reference_id = some order;
    completed_at = none;
  })
  create_pack_tasks env warehouse order n (ids ++ id ∷ [])
