-- ===== src/Procurement/Orders/Lifecycle.antt =====
-- Which statuses `cancel` (domain/procurement/purchase_orders.py) leaves, and when it refuses.
use supply_chain_execution.Common.{String, arith, false, refl, some, true, ℕ, ◌≡◌}
use supply_chain_execution.Core.Effect.{ok, raised}
use supply_chain_execution.Core.Exceptions.{workflow_error}
use supply_chain_execution.Core.Types.{PurchaseOrderStatus}
use supply_chain_execution.Persistence.Models.Procurement.{PurchaseOrder}
use supply_chain_execution.Persistence.Queries.Procurement.{
  get_purchase_order, purchase_order_id, put_purchase_order,
}
use supply_chain_execution.Persistence.Session.{Session}
use supply_chain_execution.Persistence.Table.{get, put}
use supply_chain_execution.Procurement.Orders.{
  cancel, cancelled_order, has_receipts, may_become, po_transitions, validate_transition,
}

cancellable :
    (status : PurchaseOrderStatus)
    → may_become status PurchaseOrderStatus.cancelled ≡ true
    → has_receipts status ≡ false
unfolding po_transitions
cancellable status e = ground arith

-- `cancel` on an order of the session: it cancels a draft, submitted or acknowledged order, and on
-- any other it raises WorkflowError and leaves the session alone. The test for recorded receipts
-- after the transition check never decides.
cancel-outcome :
    (id : ℕ) (reason : String) (po : PurchaseOrder) (s : Session)
    → get purchase_order_id id s.purchase_orders ≡ some po
    → (may_become po.status PurchaseOrderStatus.cancelled ≡ true
        → cancel id reason s ≡ (
          ok (cancelled_order reason po),
          record s {
            purchase_orders = put purchase_order_id (cancelled_order reason po) s.purchase_orders;
          },
        ))
      × (may_become po.status PurchaseOrderStatus.cancelled ≡ false
          → cancel id reason s ≡ (raised workflow_error, s))
unfolding cancel get_purchase_order validate_transition put_purchase_order
cancel-outcome id reason po s e = (
  λ allowed. rw (e, allowed, cancellable po.status allowed) refl,
  λ refused. rw (e, refused) refl,
)
