-- ===== src/Warehousing/Inbound.antt =====
-- src/nexusops/domain/warehouse/receiving.py
pub mod Stock
use mathlib.Core.Option
use supply_chain_execution.Common.{
  Bool, List, Option, [], all, any, if◌then◌else◌, none, some, ℕ, ◌++◌, ◌==◌, ◌∷◌,
}
use supply_chain_execution.Common.Int.{leb_ℤ, ltb_ℤ, pos, ℤ, ◌+ℤ◌, ◌-ℤ◌}
use supply_chain_execution.Core.Effect.{for_each, or_raise, pure, ◌>>=◌, ◌>>◌}
use supply_chain_execution.Core.Exceptions.{value_error}
use supply_chain_execution.Core.Types.{PurchaseOrderStatus, WarehouseTaskStatus, WarehouseTaskType}
use supply_chain_execution.Persistence.Models.Inventory.{InventoryBalance, new_balance}
use supply_chain_execution.Persistence.Models.Procurement.{PurchaseOrder, PurchaseOrderLine}
use supply_chain_execution.Persistence.Queries.Inventory.{add_balance, get_balance, put_balance}
use supply_chain_execution.Persistence.Queries.Procurement.{get_with_lines, put_purchase_order}
use supply_chain_execution.Persistence.Queries.Warehouse.{add_task}
use supply_chain_execution.Persistence.Session.{Db, Env, draw_uuid}
use supply_chain_execution.Procurement.Orders.{received_line, with_lines, with_status}

pub record ReceivingLine : Type 0 where
  pub sku_id : ℕ
  pub quantity_received : ℤ
  pub damage_quantity : ℤ

-- A discrepancy is the SKU and whether it is not on the order, or over-received.
pub data DiscrepancyKind : Type 0 where
  not_on_order over_receipt : DiscrepancyKind

pub record ReceivingResult : Type 0 where
  pub lines : List PurchaseOrderLine
  pub tasks_created : List ℕ
  pub total_received : ℤ
  pub discrepancies : List (ℕ × DiscrepancyKind)

abbrev pub take_in : ℤ → ℤ → InventoryBalance → InventoryBalance
take_in good damaged b = record b {
  on_hand = b.on_hand +ℤ good;
  damaged = b.damaged +ℤ damaged;
  version = b.version +ℤ pos 1;
}

unfoldable pub take_in_found : Env → ℕ → ℕ → ℤ → ℤ → Option InventoryBalance → Db (Unit {0})
take_in_found env warehouse sku good damaged (some b) = put_balance (take_in good damaged b)
take_in_found env warehouse sku good damaged none = do
  id ← draw_uuid env
  add_balance (record (new_balance id warehouse sku) { on_hand = good; damaged = damaged })

-- `_update_inventory`
unfoldable pub update_inventory : Env → ℕ → ℕ → ℤ → ℤ → Db (Unit {0})
update_inventory env warehouse sku good damaged = do
  found ← get_balance warehouse sku none
  take_in_found env warehouse sku good damaged found

-- `_create_putaway_task`
unfoldable pub create_putaway_task : Env → ℕ → ℕ → ℤ → ℕ → Db ℕ
create_putaway_task env warehouse sku quantity po = do
  id ← draw_uuid env
  add_task (record {
    id = id;
    warehouse_id = warehouse;
    task_type = WarehouseTaskType.putaway;
    status = WarehouseTaskStatus.pending;
    priority = pos 5;
    assigned_to = none;
    source_location_id = none;
    target_location_id = none;
    sku_id = some sku;
    quantity = some quantity;
    reference_type = some "purchase_order";
    reference_id = some po;
    completed_at = none;
  })
  pure id

-- The assignment to the first line of the SKU, if there is one: the line as it was, and the lines.
unfoldable pub receive_on_line :
    ℕ → ℤ → List PurchaseOrderLine → Option (PurchaseOrderLine × List PurchaseOrderLine)
receive_on_line sku quantity [] = none
receive_on_line sku quantity (l ∷ ls) =
    let rest = receive_on_line sku quantity ls in
    if l.sku_id == sku
    then some (l, received_line quantity l ∷ ls)
    else Option.map (λ (x : PurchaseOrderLine × List PurchaseOrderLine). (x.0, l ∷ x.1)) rest

abbrev pub over_remaining : ℤ → PurchaseOrderLine → Bool
over_remaining quantity l = ltb_ℤ (l.quantity_ordered -ℤ l.quantity_received) quantity

module _ (env : Env) (po : PurchaseOrder) (warehouse : ℕ) where
  -- One line of the delivery on the order line that it found. The order's line is assigned after
  -- the inventory; both are objects of the session, and the order is put with the line.
  unfoldable pub receive_found :
      ReceivingLine
      → ReceivingResult
      → Option (PurchaseOrderLine × List PurchaseOrderLine)
      → Db ReceivingResult
  receive_found line acc none =
      pure (record acc { discrepancies = acc.discrepancies ++ (line.sku_id, not_on_order) ∷ [] })
  receive_found line acc (some (was, lines)) = do
    let good = line.quantity_received -ℤ line.damage_quantity
    update_inventory env warehouse line.sku_id good line.damage_quantity
    put_purchase_order (with_lines lines po)
    task ← create_putaway_task env warehouse line.sku_id good po.id
    pure (record {
      lines = lines;
      tasks_created = acc.tasks_created ++ task ∷ [];
      total_received = acc.total_received +ℤ line.quantity_received;
      discrepancies =
          acc.discrepancies
          ++ (if over_remaining line.quantity_received was
              then (line.sku_id, over_receipt) ∷ []
              else []);
    })

  unfoldable pub receive_line : ReceivingLine → ReceivingResult → Db ReceivingResult
  receive_line line acc =
      receive_found line acc (receive_on_line line.sku_id line.quantity_received acc.lines)

-- The status that `receive_against_po` assigns.
unfoldable pub received_status : PurchaseOrder → PurchaseOrderStatus
received_status po =
    if all (λ (l : PurchaseOrderLine). leb_ℤ l.quantity_ordered l.quantity_received) po.lines
    then PurchaseOrderStatus.received
    else if any (λ (l : PurchaseOrderLine). ltb_ℤ (pos 0) l.quantity_received) po.lines
    then PurchaseOrderStatus.partially_received
    else po.status

unfoldable pub receive_against_po : Env → ℕ → ℕ → List ReceivingLine → Db ReceivingResult
receive_against_po env id warehouse deliveries = do
  found ← get_with_lines id
  po ← or_raise found value_error
  result ←
      for_each (receive_line env po warehouse) deliveries (record {
        lines = po.lines;
        tasks_created = [];
        total_received = pos 0;
        discrepancies = [];
      })
  let po' = with_lines result.lines po
  put_purchase_order (with_status (received_status po') po')
  pure result
