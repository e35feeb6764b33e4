-- ===== src/Persistence/Models/Fulfillment.antt =====
-- src/nexusops/models/fulfillment.py. An order holds its lines; a plan's `routing_score`, a rounded
-- float, is left out, and its `plan_details` are their two entries.
use supply_chain_execution.Common.{Bool, List, String, ℕ}
use supply_chain_execution.Common.Int.{ℤ}
use supply_chain_execution.Core.Types.{OrderStatus}
use supply_chain_execution.Core.Validators.{Address}

pub record OrderLine : Type 0 where
  pub id : ℕ
  pub sku_id : ℕ
  pub quantity_ordered : ℤ
  pub quantity_allocated : ℤ
  pub unit_price : ℤ
  pub backorder_quantity : ℤ

pub record Order : Type 0 where
  pub id : ℕ
  pub status : OrderStatus
  pub ship_to_address : Address
  pub routing_strategy : String
  pub allow_partial_fulfillment : Bool
  pub lines : List OrderLine

pub data PlanStatus : Type 0 where
  planned executing completed : PlanStatus

pub record FulfillmentPlan : Type 0 where
  pub id : ℕ
  pub order_id : ℕ
  pub warehouse_id : ℕ
  pub status : PlanStatus
  pub estimated_cost : ℤ
  pub line_coverage : List (ℕ × ℤ)
  pub strategy : String
  pub is_partial : Bool
