-- ===== src/Persistence/Queries/Inventory.antt =====
-- src/nexusops/repositories/inventory.py
use supply_chain_execution.Common.{
  Bool, List, Option, [], any, filter, if◌then◌else◌, same_opt, ℕ, ◌&&◌, ◌==◌, ◌∷◌,
}
use supply_chain_execution.Common.Int.{ltb_ℤ, max_ℤ, pos, sum_of, ℤ}
use supply_chain_execution.Core.Effect.{ok, or_raise}
use supply_chain_execution.Core.Exceptions.{multiple_results_found, not_found}
use supply_chain_execution.Persistence.Models.Inventory.{
  InventoryBalance, InventoryReservation, SafetyStockPolicy, is_active_status, uncommitted,
}
use supply_chain_execution.Persistence.Session.{Db, Session, flush_all}
use supply_chain_execution.Persistence.Table.{
  add, get, put, scalar_one_or_none, select, select_columns,
}

abbrev pub balance_id : InventoryBalance → ℕ
balance_id b = b.id

abbrev pub reservation_id : InventoryReservation → ℕ
reservation_id r = r.id

-- The WHERE clause of `get_balance`.
abbrev pub is_balance_of : ℕ → ℕ → Option ℕ → InventoryBalance → Bool
is_balance_of warehouse sku location b =
    (b.warehouse_id == warehouse) && (b.sku_id == sku) && same_opt b.location_id location

unfoldable pub get_balance : ℕ → ℕ → Option ℕ → Db (Option InventoryBalance)
get_balance warehouse sku location s =
    or_raise (scalar_one_or_none (select (is_balance_of warehouse sku location) s.balances))
      multiple_results_found s

abbrev pub is_stock_of : ℕ → ℕ → InventoryBalance → Bool
is_stock_of warehouse sku b = (b.warehouse_id == warehouse) && (b.sku_id == sku)

-- The sum is computed by the database, so it reads the stored rows.
unfoldable pub get_aggregated_available : ℕ → ℕ → Session → ℤ
get_aggregated_available warehouse sku s =
    max_ℤ (pos 0) (sum_of uncommitted (select_columns (is_stock_of warehouse sku) s.balances))

unfoldable pub list_by_warehouse : ℕ → Session → List InventoryBalance
list_by_warehouse warehouse s = select (λ b. b.warehouse_id == warehouse) s.balances

-- Assignments to a balance object, and `balance_repo.add`.
unfoldable pub put_balance : InventoryBalance → Db (Unit {0})
put_balance b s = (ok tt, record s { balances = put balance_id b s.balances })

unfoldable pub add_balance : InventoryBalance → Db (Unit {0})
add_balance b s = (ok tt, flush_all (record s { balances = add b s.balances }))

abbrev pub is_active_for_order : ℕ → InventoryReservation → Bool
is_active_for_order order r = (r.order_id == order) && is_active_status r.status

unfoldable pub get_active_for_order : ℕ → Session → List InventoryReservation
get_active_for_order order s = select (is_active_for_order order) s.reservations

abbrev pub is_expired_at : ℤ → InventoryReservation → Bool
is_expired_at cutoff r = is_active_status r.status && ltb_ℤ r.expires_at cutoff

unfoldable pub get_expired : ℤ → Session → List InventoryReservation
get_expired cutoff s = select (is_expired_at cutoff) s.reservations

abbrev pub is_active_stock_of : ℕ → ℕ → InventoryReservation → Bool
is_active_stock_of warehouse sku r =
    (r.warehouse_id == warehouse) && (r.sku_id == sku) && is_active_status r.status

abbrev pub reserved_quantity : InventoryReservation → ℤ
reserved_quantity r = r.quantity

unfoldable pub sum_reserved_quantity : ℕ → ℕ → Session → ℤ
sum_reserved_quantity warehouse sku s =
    sum_of reserved_quantity (select_columns (is_active_stock_of warehouse sku) s.reservations)

-- `reservation_repo.get_by_id_or_raise`
unfoldable pub get_reservation : ℕ → Db InventoryReservation
get_reservation id s = or_raise (get reservation_id id s.reservations) (not_found id) s

unfoldable pub put_reservation : InventoryReservation → Db (Unit {0})
put_reservation r s = (ok tt, record s { reservations = put reservation_id r s.reservations })

unfoldable pub add_reservation : InventoryReservation → Db (Unit {0})
add_reservation r s = (ok tt, flush_all (record s { reservations = add r s.reservations }))

-- A row of `get_network_visibility`: the warehouse, `on_hand`, `reserved` and `available`.
pub record Visibility : Type 0 where
  pub warehouse_id : ℕ
  pub on_hand : ℤ
  pub reserved : ℤ
  pub available : ℤ

abbrev pub of_warehouse : ℕ → InventoryBalance → Bool
of_warehouse w b = b.warehouse_id == w

abbrev pub visibility_row : ℕ → List InventoryBalance → Visibility
visibility_row w group = record {
  warehouse_id = w;
  on_hand = sum_of (λ (b : InventoryBalance). b.on_hand) group;
  reserved = sum_of (λ (b : InventoryBalance). b.reserved) group;
  available = max_ℤ (pos 0) (sum_of uncommitted group);
}

-- GROUP BY, the groups in the order of their first rows; `seen` are the warehouses before.
unfoldable pub group_rows : List ℕ → List InventoryBalance → List InventoryBalance → List Visibility
group_rows seen all_rows [] = []
group_rows seen all_rows (b ∷ bs) =
    if any (λ (w : ℕ). w == b.warehouse_id) seen
    then group_rows seen all_rows bs
    else visibility_row b.warehouse_id (filter (of_warehouse b.warehouse_id) all_rows)
      ∷ group_rows (b.warehouse_id ∷ seen) all_rows bs

unfoldable pub get_network_visibility : ℕ → Session → List Visibility
get_network_visibility sku s =
    let rows = select_columns (λ (b : InventoryBalance). b.sku_id == sku) s.balances in
    group_rows [] rows rows

unfoldable pub get_policy : ℕ → ℕ → Db (Option SafetyStockPolicy)
get_policy warehouse sku s =
    or_raise
      (scalar_one_or_none (
        select (λ (p : SafetyStockPolicy). (p.warehouse_id == warehouse) && (p.sku_id == sku))
          s.policies))
      multiple_results_found s
