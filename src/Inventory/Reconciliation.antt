-- ===== src/Inventory/Reconciliation.antt =====
-- src/nexusops/domain/inventory/reconciliation.py. The set of SKUs is walked in the order of the
-- balances; Python leaves the order open.
pub mod Balance
use supply_chain_execution.Common.{
  Bool, List, Option, [], false, filter, find?, if◌then◌else◌, length, ltb, map, none, not, some,
  true, ℕ, ◌&&◌, ◌++◌, ◌+◌, ◌==◌, ◌∷◌,
}
use supply_chain_execution.Common.Int.{abs, eqb_ℤ, ltb_ℤ, pos, sum_of, ℤ, ◌+ℤ◌, ◌-ℤ◌}
use supply_chain_execution.Core.Effect.{gets, or_raise, pure, ◌>>=◌, ◌>>◌}
use supply_chain_execution.Core.Exceptions.{reconciliation_error}
use supply_chain_execution.Inventory.Reservations.{distinct}
use supply_chain_execution.Persistence.Models.Inventory.{InventoryBalance, uncommitted}
use supply_chain_execution.Persistence.Queries.Inventory.{
  get_balance, list_by_warehouse, put_balance, sum_reserved_quantity,
}
use supply_chain_execution.Persistence.Session.{Db, Session}

pub data DiscrepancyType : Type 0 where
  reservation_mismatch negative_available : DiscrepancyType

abbrev pub is_mismatch : DiscrepancyType → Bool
is_mismatch reservation_mismatch = true
is_mismatch negative_available = false

pub data DiscrepancySeverity : Type 0 where
  medium high critical : DiscrepancySeverity

pub record ReconciliationDiscrepancy : Type 0 where
  pub warehouse_id : ℕ
  pub sku_id : ℕ
  pub balance_on_hand : ℤ
  pub computed_available : ℤ
  pub reserved_in_reservations : ℤ
  pub reserved_in_balance : ℤ
  pub allocated_in_balance : ℤ
  pub discrepancy_type : DiscrepancyType
  pub severity : DiscrepancySeverity

pub record ReconciliationReport : Type 0 where
  pub discrepancies : List ReconciliationDiscrepancy
  pub warehouses_checked : ℕ
  pub skus_checked : ℕ
  pub is_balanced : Bool

unfoldable pub add_discrepancy :
    ReconciliationDiscrepancy → ReconciliationReport → ReconciliationReport
add_discrepancy d report = record report {
  discrepancies = report.discrepancies ++ d ∷ [];
  is_balanced = false;
}

abbrev pub on_hand_of : InventoryBalance → ℤ
on_hand_of b = b.on_hand

abbrev pub reserved_of : InventoryBalance → ℤ
reserved_of b = b.reserved

abbrev pub allocated_of : InventoryBalance → ℤ
allocated_of b = b.allocated

-- The first test of a SKU: its balances against the active reservations.
unfoldable pub check_reservations :
    ℕ → ℕ → ℤ → List InventoryBalance → ReconciliationReport → ReconciliationReport
check_reservations warehouse sku held balances report =
    let reserved = sum_of reserved_of balances in
    let on_hand = sum_of on_hand_of balances in
    let allocated = sum_of allocated_of balances in
    if eqb_ℤ held reserved
    then report
    else add_discrepancy
        (record {
          warehouse_id = warehouse;
          sku_id = sku;
          balance_on_hand = on_hand;
          computed_available = on_hand -ℤ reserved -ℤ allocated;
          reserved_in_reservations = held;
          reserved_in_balance = reserved;
          allocated_in_balance = allocated;
          discrepancy_type = reservation_mismatch;
          severity = if ltb 10 (abs (held -ℤ reserved)) then high else medium;
        })
        report

-- The second test: each balance of the SKU by itself.
unfoldable pub check_available :
    ℕ → ℕ → ℤ → List InventoryBalance → ReconciliationReport → ReconciliationReport
check_available warehouse sku held [] report = report
check_available warehouse sku held (b ∷ bs) report = check_available warehouse sku held bs (
    if ltb_ℤ (uncommitted b) (pos 0)
    then add_discrepancy
        (record {
          warehouse_id = warehouse;
          sku_id = sku;
          balance_on_hand = b.on_hand;
          computed_available = uncommitted b;
          reserved_in_reservations = held;
          reserved_in_balance = b.reserved;
          allocated_in_balance = b.allocated;
          discrepancy_type = negative_available;
          severity = critical;
        })
        report
    else report)

abbrev pub balances_of : ℕ → List InventoryBalance → List InventoryBalance
balances_of sku balances = filter (λ (b : InventoryBalance). b.sku_id == sku) balances

-- The loop over the SKUs; `held` is what `sum_reserved_quantity` gives.
unfoldable pub check_skus :
    ℕ → (ℕ → ℤ) → List InventoryBalance → List ℕ → ReconciliationReport → ReconciliationReport
check_skus warehouse held balances [] report = report
check_skus warehouse held balances (sku ∷ skus) report = check_skus warehouse held balances skus (
    check_available warehouse sku (held sku) (balances_of sku balances)
      (check_reservations warehouse sku (held sku) (balances_of sku balances) report))

unfoldable pub reconcile_warehouse : ℕ → Session → ReconciliationReport
reconcile_warehouse warehouse s =
    let balances = list_by_warehouse warehouse s in
    let skus = distinct (map (λ (b : InventoryBalance). b.sku_id) balances) in
    check_skus warehouse (λ sku. sum_reserved_quantity warehouse sku s) balances skus
      (record {
        discrepancies = [];
        warehouses_checked = 1;
        skus_checked = length skus;
        is_balanced = true;
      })

abbrev pub combine : ReconciliationReport → ReconciliationReport → ReconciliationReport
combine a b = record {
  discrepancies = a.discrepancies ++ b.discrepancies;
  warehouses_checked = a.warehouses_checked + b.warehouses_checked;
  skus_checked = a.skus_checked + b.skus_checked;
  is_balanced = if not b.is_balanced then false else a.is_balanced;
}

unfoldable pub reconcile_all : List ℕ → Session → ReconciliationReport → ReconciliationReport
reconcile_all [] s combined = combined
reconcile_all (w ∷ ws) s combined = reconcile_all ws s (combine combined (reconcile_warehouse w s))

unfoldable pub reconcile_network : List ℕ → Session → ReconciliationReport
reconcile_network warehouses s =
    reconcile_all warehouses s
      (record { discrepancies = []; warehouses_checked = 0; skus_checked = 0; is_balanced = true })

-- The repair of the first mismatch.
unfoldable pub repair_first : ℕ → ℕ → Option ReconciliationDiscrepancy → Db Bool
repair_first warehouse sku none = pure false
repair_first warehouse sku (some d) = do
  found ← get_balance warehouse sku none
  b ← or_raise found reconciliation_error
  put_balance (record b { reserved = d.reserved_in_reservations; version = b.version +ℤ pos 1 })
  pure true

unfoldable pub auto_repair_reservation_mismatch : ℕ → ℕ → Db Bool
auto_repair_reservation_mismatch warehouse sku = do
  report ← gets (reconcile_warehouse warehouse)
  repair_first warehouse sku (
      find? (λ (d : ReconciliationDiscrepancy). (d.sku_id == sku) && is_mismatch d.discrepancy_type)
        report.discrepancies)
