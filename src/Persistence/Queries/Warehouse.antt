-- ===== src/Persistence/Queries/Warehouse.antt =====
-- src/nexusops/repositories/warehouse.py
use text.Mathlib.Text.{◌==◌ as str_eq}
use supply_chain_execution.Common.{
  Bool, List, Option, String, none, some, sorted, true, ℕ, ◌&&◌, ◌==◌, ◌||◌,
}
use supply_chain_execution.Common.Int.{ltb_ℤ}
use supply_chain_execution.Core.Effect.{ok, or_raise}
use supply_chain_execution.Core.Exceptions.{not_found}
use supply_chain_execution.Persistence.Models.Warehouse.{
  Warehouse, WarehouseLocation, WarehouseTask, WarehouseTransfer,
}
use supply_chain_execution.Persistence.Session.{Db, Session, flush_all}
use supply_chain_execution.Persistence.Table.{add, get, put, select}

abbrev pub lower_priority : Warehouse → Warehouse → Bool
lower_priority a b = ltb_ℤ a.fulfillment_priority b.fulfillment_priority

-- Ordered by `fulfillment_priority`; rows of one priority come in table order.
unfoldable pub list_active : Session → List Warehouse
list_active s = sorted lower_priority (select (λ w. w.is_active) s.warehouses)

-- `if zone:` leaves out the condition for no zone, and for the empty one.
abbrev pub in_zone : Option String → WarehouseLocation → Bool
in_zone none l = true
in_zone (some zone) l = str_eq zone "" || str_eq l.zone zone

unfoldable pub list_pickable : ℕ → Option String → Session → List WarehouseLocation
list_pickable warehouse zone s =
    select (λ l. (l.warehouse_id == warehouse) && l.is_pickable && in_zone zone l) s.locations

abbrev pub location_id_of : WarehouseLocation → ℕ
location_id_of l = l.id

abbrev pub task_id : WarehouseTask → ℕ
task_id t = t.id

abbrev pub transfer_id : WarehouseTransfer → ℕ
transfer_id t = t.id

unfoldable pub get_task : ℕ → Db WarehouseTask
get_task id s = or_raise (get task_id id s.tasks) (not_found id) s

unfoldable pub put_task : WarehouseTask → Db (Unit {0})
put_task t s = (ok tt, record s { tasks = put task_id t s.tasks })

unfoldable pub add_task : WarehouseTask → Db (Unit {0})
add_task t s = (ok tt, flush_all (record s { tasks = add t s.tasks }))

unfoldable pub get_transfer : ℕ → Db WarehouseTransfer
get_transfer id s = or_raise (get transfer_id id s.transfers) (not_found id) s

unfoldable pub put_transfer : WarehouseTransfer → Db (Unit {0})
put_transfer t s = (ok tt, record s { transfers = put transfer_id t s.transfers })

unfoldable pub add_transfer : WarehouseTransfer → Db (Unit {0})
add_transfer t s = (ok tt, flush_all (record s { transfers = add t s.transfers }))

abbrev pub warehouse_id_of : Warehouse → ℕ
warehouse_id_of w = w.id

unfoldable pub get_warehouse : ℕ → Db Warehouse
get_warehouse id s = or_raise (get warehouse_id_of id s.warehouses) (not_found id) s
