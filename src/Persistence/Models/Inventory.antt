-- ===== src/Persistence/Models/Inventory.antt =====
-- src/nexusops/models/inventory.py
use supply_chain_execution.Common.{Bool, Option, false, none, true, ℕ}
use supply_chain_execution.Common.Int.{max_ℤ, pos, ℤ, ◌-ℤ◌}

pub record InventoryBalance : Type 0 where
  pub id : ℕ
  pub warehouse_id : ℕ
  pub sku_id : ℕ
  pub location_id : Option ℕ
  pub on_hand : ℤ
  pub reserved : ℤ
  pub allocated : ℤ
  pub in_transit : ℤ
  pub damaged : ℤ
  pub quarantine : ℤ
  pub version : ℤ

-- What the counters leave, before the clamp of `available`.
abbrev pub uncommitted : InventoryBalance → ℤ
uncommitted b = b.on_hand -ℤ b.reserved -ℤ b.allocated -ℤ b.damaged -ℤ b.quarantine

-- The property `available`.
unfoldable pub available : InventoryBalance → ℤ
available b = max_ℤ (pos 0) (uncommitted b)

-- A new row: `InventoryBalance(warehouse_id=…, sku_id=…, …)` after its flush filled the defaults.
abbrev pub new_balance : ℕ → ℕ → ℕ → InventoryBalance
new_balance id warehouse_id sku_id = record {
  id = id;
  warehouse_id = warehouse_id;
  sku_id = sku_id;
  location_id = none;
  on_hand = pos 0;
  reserved = pos 0;
  allocated = pos 0;
  in_transit = pos 0;
  damaged = pos 0;
  quarantine = pos 0;
  version = pos 1;
}

pub data ReservationStatus : Type 0 where
  active confirmed released : ReservationStatus

abbrev pub is_active_status : ReservationStatus → Bool
is_active_status ReservationStatus.active = true
is_active_status ReservationStatus.confirmed = false
is_active_status ReservationStatus.released = false

pub record InventoryReservation : Type 0 where
  pub id : ℕ
  pub order_id : ℕ
  pub order_line_id : ℕ
  pub warehouse_id : ℕ
  pub sku_id : ℕ
  pub quantity : ℤ
  pub status : ReservationStatus
  pub expires_at : ℤ

pub record SafetyStockPolicy : Type 0 where
  pub warehouse_id : ℕ
  pub sku_id : ℕ
  pub safety_stock_qty : ℤ
  pub reorder_point : ℤ
