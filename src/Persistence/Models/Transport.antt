-- ===== src/Persistence/Models/Transport.antt =====
-- src/nexusops/models/transportation.py. A weight and a rate are in units of their last decimal
-- place; a position is what `addr.get("latitude", 0)` is made from, and belongs to the address.
use supply_chain_execution.Common.{Bool, List, Option, String, ℕ}
use supply_chain_execution.Common.Int.{ℤ}
use supply_chain_execution.Core.Types.{ShipmentStatus}
use supply_chain_execution.Core.Validators.{Address}

-- One entry of `state_history`: the status, its timestamp, and what it replaced.
pub record StateEntry : Type 0 where
  pub status : ShipmentStatus
  pub timestamp : ℤ
  pub previous : Option ShipmentStatus

pub record Shipment : Type 0 where
  pub id : ℕ
  pub order_id : ℕ
  pub warehouse_id : ℕ
  pub carrier_id : Option ℕ
  pub status : ShipmentStatus
  pub origin_address : Address
  pub destination_address : Address
  pub total_weight_kg : Option ℤ
  pub total_packages : ℤ
  pub scheduled_pickup : Option ℤ
  pub scheduled_delivery : Option ℤ
  pub actual_delivery : Option ℤ
  pub consolidation_group_id : Option ℕ
  pub state_history : List StateEntry
  pub version : ℤ

pub data StopType : Type 0 where
  pickup delivery : StopType

-- A stop's `status` is "pending" throughout.
pub record ShipmentStop : Type 0 where
  pub id : ℕ
  pub shipment_id : ℕ
  pub sequence : ℕ
  pub stop_type : StopType
  pub address : Address

pub record RoutePlan : Type 0 where
  pub shipment_id : ℕ
  pub carrier_id : ℕ
  pub total_distance_km : ℤ
  pub total_duration_minutes : ℤ
  pub estimated_cost : ℤ
  pub route_geometry : List ℕ
  pub optimization_run_id : Option ℕ
  pub is_selected : Bool

pub record Carrier : Type 0 where
  pub id : ℕ
  pub carrier_code : String
  pub on_time_rate : Option ℤ
  pub cost_per_kg : Option ℤ
  pub max_weight_kg : Option ℤ
  pub is_active : Bool
