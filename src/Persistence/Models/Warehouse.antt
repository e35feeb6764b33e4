-- ===== src/Persistence/Models/Warehouse.antt =====
-- src/nexusops/models/warehouse.py
use supply_chain_execution.Common.{Bool, Option, String, ℕ}
use supply_chain_execution.Common.Int.{ℤ}
use supply_chain_execution.Core.Types.{WarehouseTaskStatus, WarehouseTaskType}
use supply_chain_execution.Core.Validators.{Address}

pub record Warehouse : Type 0 where
  pub id : ℕ
  pub address : Address
  pub is_active : Bool
  pub fulfillment_priority : ℤ
  pub capacity_units : Option ℤ

pub record WarehouseLocation : Type 0 where
  pub id : ℕ
  pub warehouse_id : ℕ
  pub zone : String
  pub capacity_units : Option ℤ
  pub is_pickable : Bool

pub record WarehouseTask : Type 0 where
  pub id : ℕ
  pub warehouse_id : ℕ
  pub task_type : WarehouseTaskType
  pub status : WarehouseTaskStatus
  pub priority : ℤ
  pub assigned_to : Option String
  pub source_location_id : Option ℕ
  pub target_location_id : Option ℕ
  pub sku_id : Option ℕ
  pub quantity : Option ℤ
  pub reference_type : Option String
  pub reference_id : Option ℕ
  pub completed_at : Option ℤ

-- The values that the code assigns to a transfer's `status`, and the two more that it tests for.
pub data TransferStatus : Type 0 where
  pending picking shipped in_transit received : TransferStatus

pub record WarehouseTransfer : Type 0 where
  pub id : ℕ
  pub source_warehouse_id : ℕ
  pub destination_warehouse_id : ℕ
  pub status : TransferStatus
  pub sku_id : ℕ
  pub quantity : ℤ
  pub quantity_shipped : ℤ
  pub quantity_received : ℤ
  pub scheduled_ship_date : Option ℤ
