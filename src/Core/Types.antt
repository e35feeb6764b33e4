-- ===== src/Core/Types.antt =====
-- src/nexusops/core/types.py: the enumerations. A column that the source types `str` and writes
-- only from an enumeration holds that enumeration here. Members are compared by their positions.
use supply_chain_execution.Common.{ℕ, Bool, ◌==◌}

pub data OrderStatus : Type 0 where
  received validating allocating partially_allocated : OrderStatus
  fulfillment_planned picking packed shipped : OrderStatus
  delivered cancelled backordered : OrderStatus

pub data ShipmentStatus : Type 0 where
  draft planned consolidated label_generated : ShipmentStatus
  in_transit out_for_delivery delivered exception : ShipmentStatus
  cancelled : ShipmentStatus

pub data PurchaseOrderStatus : Type 0 where
  draft submitted acknowledged partially_received : PurchaseOrderStatus
  received closed cancelled : PurchaseOrderStatus

pub data WarehouseTaskType : Type 0 where
  receive putaway pick pack : WarehouseTaskType
  transfer_out transfer_in cycle_count : WarehouseTaskType

pub data WarehouseTaskStatus : Type 0 where
  pending assigned in_progress completed : WarehouseTaskStatus
  failed cancelled : WarehouseTaskStatus

pub data EventType : Type 0 where
  inventory_adjusted inventory_reserved inventory_released allocation_created : EventType
  allocation_failed order_routed fulfillment_planned shipment_created : EventType
  shipment_state_changed route_planned forecast_updated po_submitted : EventType
  receiving_completed optimization_run manual_override : EventType

abbrev pub order_position : OrderStatus → ℕ
order_position OrderStatus.received = 0
order_position OrderStatus.validating = 1
order_position OrderStatus.allocating = 2
order_position OrderStatus.partially_allocated = 3
order_position OrderStatus.fulfillment_planned = 4
order_position OrderStatus.picking = 5
order_position OrderStatus.packed = 6
order_position OrderStatus.shipped = 7
order_position OrderStatus.delivered = 8
order_position OrderStatus.cancelled = 9
order_position OrderStatus.backordered = 10

abbrev pub same_order : OrderStatus → OrderStatus → Bool
same_order a b = order_position a == order_position b

abbrev pub shipment_position : ShipmentStatus → ℕ
shipment_position ShipmentStatus.draft = 0
shipment_position ShipmentStatus.planned = 1
shipment_position ShipmentStatus.consolidated = 2
shipment_position ShipmentStatus.label_generated = 3
shipment_position ShipmentStatus.in_transit = 4
shipment_position ShipmentStatus.out_for_delivery = 5
shipment_position ShipmentStatus.delivered = 6
shipment_position ShipmentStatus.exception = 7
shipment_position ShipmentStatus.cancelled = 8

abbrev pub same_shipment : ShipmentStatus → ShipmentStatus → Bool
same_shipment a b = shipment_position a == shipment_position b

abbrev pub po_position : PurchaseOrderStatus → ℕ
po_position PurchaseOrderStatus.draft = 0
po_position PurchaseOrderStatus.submitted = 1
po_position PurchaseOrderStatus.acknowledged = 2
po_position PurchaseOrderStatus.partially_received = 3
po_position PurchaseOrderStatus.received = 4
po_position PurchaseOrderStatus.closed = 5
po_position PurchaseOrderStatus.cancelled = 6

abbrev pub same_po : PurchaseOrderStatus → PurchaseOrderStatus → Bool
same_po a b = po_position a == po_position b

abbrev pub task_type_position : WarehouseTaskType → ℕ
task_type_position WarehouseTaskType.receive = 0
task_type_position WarehouseTaskType.putaway = 1
task_type_position WarehouseTaskType.pick = 2
task_type_position WarehouseTaskType.pack = 3
task_type_position WarehouseTaskType.transfer_out = 4
task_type_position WarehouseTaskType.transfer_in = 5
task_type_position WarehouseTaskType.cycle_count = 6

abbrev pub same_task_type : WarehouseTaskType → WarehouseTaskType → Bool
same_task_type a b = task_type_position a == task_type_position b

abbrev pub event_position : EventType → ℕ
event_position EventType.inventory_adjusted = 0
event_position EventType.inventory_reserved = 1
event_position EventType.inventory_released = 2
event_position EventType.allocation_created = 3
event_position EventType.allocation_failed = 4
event_position EventType.order_routed = 5
event_position EventType.fulfillment_planned = 6
event_position EventType.shipment_created = 7
event_position EventType.shipment_state_changed = 8
event_position EventType.route_planned = 9
event_position EventType.forecast_updated = 10
event_position EventType.po_submitted = 11
event_position EventType.receiving_completed = 12
event_position EventType.optimization_run = 13
event_position EventType.manual_override = 14

abbrev pub same_event : EventType → EventType → Bool
same_event a b = event_position a == event_position b
