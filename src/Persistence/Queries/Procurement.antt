-- ===== src/Persistence/Queries/Procurement.antt =====
-- src/nexusops/repositories/procurement.py
use supply_chain_execution.Common.{Option, ℕ, ◌==◌}
use supply_chain_execution.Core.Effect.{ok, or_raise}
use supply_chain_execution.Core.Exceptions.{multiple_results_found, not_found}
use supply_chain_execution.Persistence.Models.Procurement.{PurchaseOrder, Supplier}
use supply_chain_execution.Persistence.Session.{Db, Session}
use supply_chain_execution.Persistence.Table.{get, put, scalar_one_or_none, select}

abbrev pub purchase_order_id : PurchaseOrder → ℕ
purchase_order_id po = po.id

abbrev pub supplier_id_of : Supplier → ℕ
supplier_id_of x = x.id

-- `get_with_lines` selects by the primary key; `get_by_id` asks the session for it.
unfoldable pub get_with_lines : ℕ → Db (Option PurchaseOrder)
get_with_lines id s =
    or_raise (scalar_one_or_none (select (λ po. po.id == id) s.purchase_orders))
      multiple_results_found s

unfoldable pub get_purchase_order : ℕ → Db PurchaseOrder
get_purchase_order id s = or_raise (get purchase_order_id id s.purchase_orders) (not_found id) s

unfoldable pub put_purchase_order : PurchaseOrder → Db (Unit {0})
put_purchase_order po s =
    (ok tt, record s { purchase_orders = put purchase_order_id po s.purchase_orders })

unfoldable pub find_supplier : ℕ → Session → Option Supplier
find_supplier id s = get supplier_id_of id s.suppliers
