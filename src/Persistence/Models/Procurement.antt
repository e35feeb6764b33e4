-- ===== src/Persistence/Models/Procurement.antt =====
-- src/nexusops/models/procurement.py
use supply_chain_execution.Common.{Bool, List, Option, String, ℕ}
use supply_chain_execution.Common.Int.{ℤ}
use supply_chain_execution.Core.Types.{PurchaseOrderStatus}

pub record Supplier : Type 0 where
  pub id : ℕ
  pub is_preferred : Bool
  pub is_active : Bool

pub data LineStatus : Type 0 where
  open_line closed : LineStatus

pub record PurchaseOrderLine : Type 0 where
  pub id : ℕ
  pub sku_id : ℕ
  pub quantity_ordered : ℤ
  pub quantity_received : ℤ
  pub line_status : LineStatus

pub record PurchaseOrder : Type 0 where
  pub id : ℕ
  pub po_number : String
  pub supplier_id : ℕ
  pub warehouse_id : ℕ
  pub status : PurchaseOrderStatus
  pub expected_delivery : Option ℤ
  pub notes : Option String
  pub lines : List PurchaseOrderLine
