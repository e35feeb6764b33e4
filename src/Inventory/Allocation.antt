-- ===== src/Inventory/Allocation.antt =====
-- src/nexusops/domain/inventory/allocation.py: requests, results, and the engine's operations on
-- one reservation or balance.
pub mod Ranking
pub mod Engine
pub mod Steps
pub mod Loop
pub mod Backing
pub mod Accounting
pub mod Solvency
pub mod Orphan
pub mod Release
pub mod Freed
pub mod Confirm
use supply_chain_execution.Common.{Bool, List, Option, if◌then◌else◌, none, not, some, ℕ, ◌*◌}
use supply_chain_execution.Common.Int.{eqb_ℤ, ltb_ℤ, max_ℤ, pos, ℤ, ◌+ℤ◌, ◌-ℤ◌}
use supply_chain_execution.Core.Effect.{for_each, gets, pure, raise, raise_if, ◌>>=◌, ◌>>◌}
use supply_chain_execution.Core.Exceptions.{
  allocation_error, insufficient_inventory, reservation_expired,
}
use supply_chain_execution.Persistence.Models.Inventory.{
  InventoryBalance, InventoryReservation, ReservationStatus, available, is_active_status, released,
}
use supply_chain_execution.Persistence.Queries.Inventory.{
  add_reservation, get_active_for_order, get_balance, get_reservation, put_balance, put_reservation,
}
use supply_chain_execution.Persistence.Session.{Db, Env, draw_now, draw_uuid, minute}

pub record AllocationRequest : Type 0 where
  pub order_id : ℕ
  pub order_line_id : ℕ
  pub sku_id : ℕ
  pub quantity : ℤ
  pub preferred_warehouse_id : Option ℕ
  pub allow_split : Bool

pub record AllocationResult : Type 0 where
  pub order_line_id : ℕ
  pub allocations : List (ℕ × ℤ)
  pub total_allocated : ℤ
  pub backorder_quantity : ℤ
  pub reservation_ids : List ℕ

unfoldable pub is_fully_allocated : AllocationResult → Bool
is_fully_allocated r = eqb_ℤ r.backorder_quantity (pos 0)

abbrev pub reservation_ttl_minutes : ℕ
reservation_ttl_minutes = 30

-- `_create_reservation`: the row is added and flushed, and with it every other object.
unfoldable pub create_reservation : Env → AllocationRequest → ℕ → ℤ → Db InventoryReservation
create_reservation env request warehouse quantity = do
  now ← draw_now env
  id ← draw_uuid env
  let reservation : InventoryReservation = record {
    id = id;
    order_id = request.order_id;
    order_line_id = request.order_line_id;
    warehouse_id = warehouse;
    sku_id = request.sku_id;
    quantity = quantity;
    status = ReservationStatus.active;
    expires_at = now +ℤ pos (reservation_ttl_minutes * minute);
  }
  add_reservation reservation
  pure reservation

-- A balance whose `reserved` counter has moved by `quantity`.
abbrev pub reserve : ℤ → InventoryBalance → InventoryBalance
reserve quantity b = record b { reserved = b.reserved +ℤ quantity; version = b.version +ℤ pos 1 }

-- The checks of `_apply_allocation` on the balance that it looked up, and its assignments.
unfoldable pub reserve_found : ℕ → ℕ → ℤ → Option InventoryBalance → Db InventoryBalance
reserve_found warehouse sku quantity none = raise allocation_error
reserve_found warehouse sku quantity (some balance) =
    if ltb_ℤ (available balance) quantity
    then raise (insufficient_inventory sku quantity (available balance) (some warehouse))
    else put_balance (reserve quantity balance) >> pure (reserve quantity balance)

-- `_apply_allocation`
unfoldable pub apply_allocation : ℕ → ℕ → ℤ → Db InventoryBalance
apply_allocation warehouse sku quantity = do
  found ← get_balance warehouse sku none
  reserve_found warehouse sku quantity found

-- `max(0, counter - quantity)` on the counter that the reservation's status names.
abbrev pub release_counter : ReservationStatus → ℤ → InventoryBalance → InventoryBalance
release_counter ReservationStatus.confirmed quantity b = record b {
  allocated = max_ℤ (pos 0) (b.allocated -ℤ quantity);
  version = b.version +ℤ pos 1;
}
release_counter ReservationStatus.active quantity b = record b {
  reserved = max_ℤ (pos 0) (b.reserved -ℤ quantity);
  version = b.version +ℤ pos 1;
}
release_counter ReservationStatus.released quantity b = record b {
  reserved = max_ℤ (pos 0) (b.reserved -ℤ quantity);
  version = b.version +ℤ pos 1;
}

-- `if balance:` around an assignment to the balance.
abbrev pub put_if_found :
    (InventoryBalance → InventoryBalance) → Option InventoryBalance → Db (Unit {0})
put_if_found f none = pure tt
put_if_found f (some b) = put_balance (f b)

-- `_release_single_reservation`
unfoldable pub release_single_reservation : InventoryReservation → Db (Unit {0})
release_single_reservation reservation = do
  found ← get_balance reservation.warehouse_id reservation.sku_id none
  put_if_found (release_counter reservation.status reservation.quantity) found
  put_reservation (record reservation { status = ReservationStatus.released })

abbrev pub confirm_counters : ℤ → InventoryBalance → InventoryBalance
confirm_counters quantity b = record b {
  reserved = b.reserved -ℤ quantity;
  allocated = b.allocated +ℤ quantity;
  version = b.version +ℤ pos 1;
}

-- The confirmation of an active reservation that has not expired.
unfoldable pub confirm_now : InventoryReservation → Db (Unit {0})
confirm_now reservation = do
  put_reservation (record reservation { status = ReservationStatus.confirmed })
  found ← get_balance reservation.warehouse_id reservation.sku_id none
  put_if_found (confirm_counters reservation.quantity) found

-- `confirm_allocation`. The reservation is assigned before its balance is looked up.
unfoldable pub confirm_allocation : Env → ℕ → Db (Unit {0})
confirm_allocation env id = do
  reservation ← get_reservation id
  raise_if (not (is_active_status reservation.status)) reservation_expired
  now ← draw_now env
  if ltb_ℤ reservation.expires_at now
      then release_single_reservation reservation >> raise reservation_expired
      else confirm_now reservation

unfoldable pub release_reservations : ℕ → Db ℤ
release_reservations order = do
  reservations ← gets (get_active_for_order order)
  for_each
      (λ (r : InventoryReservation) (released : ℤ). do
        release_single_reservation r
        pure (released +ℤ r.quantity))
      reservations (pos 0)
