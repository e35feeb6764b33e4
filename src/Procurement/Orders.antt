-- ===== src/Procurement/Orders.antt =====
-- src/nexusops/domain/procurement/purchase_orders.py
pub mod Receipts
pub mod Lifecycle
use Prim.Native.String.{◌++◌ as str_append}
use supply_chain_execution.Common.{
  Bool, List, Option, String, [], all, any, false, if◌then◌else◌, length, none, not, some, true, ℕ,
  ◌==◌, ◌||◌, ◌∷◌,
}
use supply_chain_execution.Common.Int.{leb_ℤ, ltb_ℤ, pos, ℤ, ◌+ℤ◌}
use supply_chain_execution.Core.Effect.{
  Result, gets, ok, or_raise, pure, raise_if, raised, ◌>>=◌, ◌>>◌,
}
use supply_chain_execution.Core.Exceptions.{validation_error, workflow_error}
use supply_chain_execution.Core.Types.{EventType, PurchaseOrderStatus, same_po}
use supply_chain_execution.Events.Bus.{EventBus, publish}
use supply_chain_execution.Persistence.Models.Events.{Json, Payload}
use supply_chain_execution.Persistence.Models.Procurement.{
  LineStatus, PurchaseOrder, PurchaseOrderLine, Supplier, closed, open_line,
}
use supply_chain_execution.Persistence.Queries.Procurement.{
  find_supplier, get_purchase_order, get_with_lines, put_purchase_order,
}
use supply_chain_execution.Persistence.Session.{Db, Env, Session, draw_now}
use supply_chain_execution.Persistence.Table.Laws.{total}

-- `PO_TRANSITIONS`
unfoldable pub po_transitions : PurchaseOrderStatus → List PurchaseOrderStatus
po_transitions PurchaseOrderStatus.draft =
    PurchaseOrderStatus.submitted ∷ PurchaseOrderStatus.cancelled ∷ []
po_transitions PurchaseOrderStatus.submitted =
    PurchaseOrderStatus.acknowledged ∷ PurchaseOrderStatus.cancelled ∷ []
po_transitions PurchaseOrderStatus.acknowledged =
    PurchaseOrderStatus.partially_received ∷ PurchaseOrderStatus.received
    ∷ PurchaseOrderStatus.cancelled ∷ []
po_transitions PurchaseOrderStatus.partially_received =
    PurchaseOrderStatus.received ∷ PurchaseOrderStatus.closed ∷ []
po_transitions PurchaseOrderStatus.received = PurchaseOrderStatus.closed ∷ []
po_transitions PurchaseOrderStatus.closed = []
po_transitions PurchaseOrderStatus.cancelled = []

abbrev pub may_become : PurchaseOrderStatus → PurchaseOrderStatus → Bool
may_become current target = any (same_po target) (po_transitions current)

-- `_validate_transition`
unfoldable pub validate_transition : PurchaseOrderStatus → PurchaseOrderStatus → Db (Unit {0})
validate_transition current target s = raise_if (not (may_become current target)) workflow_error s

abbrev pub po_status_value : PurchaseOrderStatus → String
po_status_value PurchaseOrderStatus.draft = "draft"
po_status_value PurchaseOrderStatus.submitted = "submitted"
po_status_value PurchaseOrderStatus.acknowledged = "acknowledged"
po_status_value PurchaseOrderStatus.partially_received = "partially_received"
po_status_value PurchaseOrderStatus.received = "received"
po_status_value PurchaseOrderStatus.closed = "closed"
po_status_value PurchaseOrderStatus.cancelled = "cancelled"

-- `_publish_event`
unfoldable pub publish_event : Env → EventBus → PurchaseOrder → String → Payload → Db (Unit {0})
publish_event env none po action extra = pure tt
publish_event env (some redis) po action extra = do
  now ← draw_now env
  publish env redis (record {
    event_type = EventType.po_submitted;
    aggregate_type = "purchase_order";
    aggregate_id = po.id;
    payload =
        ("po_number", Json.str po.po_number)
        ∷ ("status", Json.str (po_status_value po.status))
        ∷ ("action", Json.str action)
        ∷ extra;
    occurred_at = now;
  })
  pure tt

abbrev pub with_status : PurchaseOrderStatus → PurchaseOrder → PurchaseOrder
with_status status po = record po { status = status }

abbrev pub is_active_supplier : Option Supplier → Bool
is_active_supplier none = false
is_active_supplier (some x) = x.is_active

module _ (env : Env) (bus : EventBus) where
  unfoldable pub submit : ℕ → Db PurchaseOrder
  submit id = do
    found ← get_with_lines id
    po ← or_raise found validation_error
    validate_transition po.status PurchaseOrderStatus.submitted
    raise_if (length po.lines == 0) validation_error
    supplier ← gets (find_supplier po.supplier_id)
    raise_if (not (is_active_supplier supplier)) validation_error
    let po' = with_status PurchaseOrderStatus.submitted po
    put_purchase_order po'
    publish_event env bus po' "submitted" []
    pure po'

  unfoldable pub acknowledge : ℕ → Option ℤ → Db PurchaseOrder
  acknowledge id expected_delivery = do
    po ← get_purchase_order id
    validate_transition po.status PurchaseOrderStatus.acknowledged
    let po' : PurchaseOrder = record po {
      status = PurchaseOrderStatus.acknowledged;
      expected_delivery = elim expected_delivery [ none ↦ po.expected_delivery | some t ↦ some t ];
    }
    put_purchase_order po'
    publish_event env bus po' "acknowledged" []
    pure po'

-- `line_receipts`, by line id.
abbrev pub Receipts : Type 0
Receipts = List (ℕ × ℤ)

unfoldable pub receipt_for : ℕ → Receipts → Option ℤ
receipt_for id [] = none
receipt_for id ((line, quantity) ∷ rest) = if line == id then some quantity else receipt_for id rest

abbrev pub is_closed : PurchaseOrderLine → Bool
is_closed l = elim l.line_status [ closed ↦ true | open_line ↦ false ]

unfoldable pub received_line : ℤ → PurchaseOrderLine → PurchaseOrderLine
received_line quantity l = record l {
  quantity_received = l.quantity_received +ℤ quantity;
  line_status =
      if leb_ℤ l.quantity_ordered (l.quantity_received +ℤ quantity)
      then LineStatus.closed
      else l.line_status;
}

-- The loop of `record_receipt`: what it returns or raises, and the lines as it leaves them.
unfoldable pub receive_lines :
    Receipts → List PurchaseOrderLine → ℤ → Result ℤ × List PurchaseOrderLine
receive_lines receipts [] total = (ok total, [])
receive_lines receipts (l ∷ ls) total = elim (receipt_for l.id receipts) [
  | none ↦ let rest = receive_lines receipts ls total in (rest.0, l ∷ rest.1)
  | some quantity ↦
      let rest = receive_lines receipts ls (total +ℤ quantity) in
      if ltb_ℤ l.quantity_ordered (l.quantity_received +ℤ quantity)
      then (raised validation_error, l ∷ ls)
      else (rest.0, received_line quantity l ∷ rest.1)
]

-- The status that the lines call for.
unfoldable pub receipt_status : PurchaseOrder → PurchaseOrderStatus
receipt_status po =
    if all is_closed po.lines
    then PurchaseOrderStatus.received
    else if any (λ (l : PurchaseOrderLine). ltb_ℤ (pos 0) l.quantity_received) po.lines
    then PurchaseOrderStatus.partially_received
    else po.status

abbrev pub is_receivable : PurchaseOrderStatus → Bool
is_receivable status =
    same_po status PurchaseOrderStatus.acknowledged
    || same_po status PurchaseOrderStatus.partially_received

abbrev pub with_lines : List PurchaseOrderLine → PurchaseOrder → PurchaseOrder
with_lines lines po = record po { lines = lines }

abbrev pub settle : PurchaseOrder → PurchaseOrder
settle po = with_status (receipt_status po) po

-- `record_receipt` on the order that it found, in a status that takes receipts.
unfoldable pub receive_order : Env → EventBus → Receipts → PurchaseOrder → Db PurchaseOrder
receive_order env bus receipts po = do
  let loop = receive_lines receipts po.lines (pos 0)
  put_purchase_order (with_lines loop.1 po)
  total ← (λ (s : Session). (loop.0, s))
  put_purchase_order (settle (with_lines loop.1 po))
  publish_event env bus (settle (with_lines loop.1 po)) "receipt_recorded"
      (("total_received", Json.number total) ∷ [])
  pure (settle (with_lines loop.1 po))

unfoldable pub record_receipt : Env → EventBus → ℕ → Receipts → Db PurchaseOrder
record_receipt env bus id receipts = do
  found ← get_with_lines id
  po ← or_raise found validation_error
  raise_if (not (is_receivable po.status)) workflow_error
  receive_order env bus receipts po

-- `close`
unfoldable pub close_order : ℕ → Db PurchaseOrder
close_order id = do
  po ← get_purchase_order id
  validate_transition po.status PurchaseOrderStatus.closed
  put_purchase_order (with_status PurchaseOrderStatus.closed po)
  pure (with_status PurchaseOrderStatus.closed po)

abbrev pub has_receipts : PurchaseOrderStatus → Bool
has_receipts status =
    same_po status PurchaseOrderStatus.received
    || same_po status PurchaseOrderStatus.partially_received

abbrev pub cancelled_order : String → PurchaseOrder → PurchaseOrder
cancelled_order reason po = record po {
  status = PurchaseOrderStatus.cancelled;
  notes = some (str_append "Cancelled: " reason);
}

-- `cancel`
unfoldable pub cancel : ℕ → String → Db PurchaseOrder
cancel id reason = do
  po ← get_purchase_order id
  validate_transition po.status PurchaseOrderStatus.cancelled
  raise_if (has_receipts po.status) workflow_error
  put_purchase_order (cancelled_order reason po)
  pure (cancelled_order reason po)
