-- ===== src/Warehousing/Transfers.antt =====
-- src/nexusops/domain/warehouse/transfers.py
pub mod Counters
pub mod Arrival
use supply_chain_execution.Common.{Bool, Option, false, none, not, some, true, ℕ, ◌==◌}
use supply_chain_execution.Common.Int.{ltb_ℤ, max_ℤ, pos, ℤ, ◌+ℤ◌, ◌-ℤ◌}
use supply_chain_execution.Core.Effect.{gets, pure, raise_if, ◌>>=◌, ◌>>◌}
use supply_chain_execution.Core.Exceptions.{insufficient_inventory, workflow_error}
use supply_chain_execution.Core.Types.{WarehouseTaskStatus, WarehouseTaskType}
use supply_chain_execution.Inventory.Allocation.{put_if_found}
use supply_chain_execution.Persistence.Models.Inventory.{InventoryBalance, new_balance}
use supply_chain_execution.Persistence.Models.Warehouse.{
  TransferStatus, WarehouseTransfer, in_transit,
}
use supply_chain_execution.Persistence.Queries.Inventory.{
  add_balance, get_aggregated_available, get_balance, put_balance,
}
use supply_chain_execution.Persistence.Queries.Warehouse.{
  add_task, add_transfer, get_transfer, put_transfer,
}
use supply_chain_execution.Persistence.Session.{Db, Env, draw_uuid, truthy_or}

pub record TransferRequest : Type 0 where
  pub source_warehouse_id : ℕ
  pub destination_warehouse_id : ℕ
  pub sku_id : ℕ
  pub quantity : ℤ
  pub scheduled_ship_date : Option ℤ

-- `_create_transfer_out_task` and `_create_transfer_in_task`
unfoldable pub create_transfer_task :
    Env → WarehouseTaskType → ℕ → WarehouseTransfer → ℤ → Db (Unit {0})
create_transfer_task env kind warehouse transfer quantity = do
  id ← draw_uuid env
  add_task (record {
    id = id;
    warehouse_id = warehouse;
    task_type = kind;
    status = WarehouseTaskStatus.pending;
    priority = pos 5;
    assigned_to = none;
    source_location_id = none;
    target_location_id = none;
    sku_id = some transfer.sku_id;
    quantity = some quantity;
    reference_type = some "transfer";
    reference_id = some transfer.id;
    completed_at = none;
  })

-- The source's counters when a transfer begins.
abbrev pub debit : ℤ → InventoryBalance → InventoryBalance
debit quantity b = record b {
  on_hand = b.on_hand -ℤ quantity;
  in_transit = b.in_transit +ℤ quantity;
  version = b.version +ℤ pos 1;
}

-- The rest of `initiate_transfer`, after the transfer was added.
unfoldable pub debit_source : Env → WarehouseTransfer → Db WarehouseTransfer
debit_source env transfer = do
  found ← get_balance transfer.source_warehouse_id transfer.sku_id none
  put_if_found (debit transfer.quantity) found
  create_transfer_task env WarehouseTaskType.transfer_out transfer.source_warehouse_id transfer
      transfer.quantity
  pure transfer

unfoldable pub initiate_transfer : Env → TransferRequest → Db WarehouseTransfer
initiate_transfer env request = do
  raise_if (request.source_warehouse_id == request.destination_warehouse_id) workflow_error
  stock ← gets (get_aggregated_available request.source_warehouse_id request.sku_id)
  raise_if (ltb_ℤ stock request.quantity) (
      insufficient_inventory request.sku_id request.quantity stock
        (some request.source_warehouse_id))
  id ← draw_uuid env
  let transfer : WarehouseTransfer = record {
    id = id;
    source_warehouse_id = request.source_warehouse_id;
    destination_warehouse_id = request.destination_warehouse_id;
    status = TransferStatus.pending;
    sku_id = request.sku_id;
    quantity = request.quantity;
    quantity_shipped = pos 0;
    quantity_received = pos 0;
    scheduled_ship_date = request.scheduled_ship_date;
  }
  add_transfer transfer
  debit_source env transfer

abbrev pub is_shippable : TransferStatus → Bool
is_shippable TransferStatus.pending = true
is_shippable TransferStatus.picking = true
is_shippable TransferStatus.shipped = false
is_shippable TransferStatus.in_transit = false
is_shippable TransferStatus.received = false

abbrev pub shipped_transfer : WarehouseTransfer → WarehouseTransfer
shipped_transfer t = record t { status = TransferStatus.shipped; quantity_shipped = t.quantity }

unfoldable pub ship_transfer : ℕ → Db WarehouseTransfer
ship_transfer id = do
  t ← get_transfer id
  raise_if (not (is_shippable t.status)) workflow_error
  put_transfer (shipped_transfer t)
  pure (shipped_transfer t)

abbrev pub awaits_receipt : TransferStatus → Bool
awaits_receipt TransferStatus.pending = false
awaits_receipt TransferStatus.picking = false
awaits_receipt TransferStatus.shipped = true
awaits_receipt TransferStatus.in_transit = true
awaits_receipt TransferStatus.received = false

-- The source's counter when the units arrive.
abbrev pub arrive : ℤ → InventoryBalance → InventoryBalance
arrive quantity b = record b { in_transit = max_ℤ (pos 0) (b.in_transit -ℤ quantity) }

-- The destination's counters.
abbrev pub credit : ℤ → InventoryBalance → InventoryBalance
credit quantity b = record b { on_hand = b.on_hand +ℤ quantity; version = b.version +ℤ pos 1 }

-- The destination's balance, or a new one with the units.
unfoldable pub credit_found : Env → ℕ → ℕ → ℤ → Option InventoryBalance → Db (Unit {0})
credit_found env warehouse sku quantity (some b) = put_balance (credit quantity b)
credit_found env warehouse sku quantity none = do
  id ← draw_uuid env
  add_balance (record (new_balance id warehouse sku) { on_hand = quantity })

-- The part of `receive_transfer` that moves the units.
unfoldable pub receive_units : Env → WarehouseTransfer → ℤ → Db (Unit {0})
receive_units env t quantity = do
  source ← get_balance t.source_warehouse_id t.sku_id none
  put_if_found (arrive quantity) source
  destination ← get_balance t.destination_warehouse_id t.sku_id none
  credit_found env t.destination_warehouse_id t.sku_id quantity destination

unfoldable pub receive_transfer : Env → ℕ → Option ℤ → Db WarehouseTransfer
receive_transfer env id quantity_received = do
  t ← get_transfer id
  raise_if (not (awaits_receipt t.status)) workflow_error
  let quantity = truthy_or quantity_received t.quantity_shipped
  let t' : WarehouseTransfer = record t {
    quantity_received = quantity;
    status = TransferStatus.received;
  }
  put_transfer t'
  receive_units env t quantity
  create_transfer_task env WarehouseTaskType.transfer_in t.destination_warehouse_id t' quantity
  pure t'
