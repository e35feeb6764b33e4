-- ===== src/Procurement/Orders/Receipts.antt =====
-- The lines of an order under `record_receipt` (domain/procurement/purchase_orders.py).
use supply_chain_execution.Common.{
  All, Bool-cases, List, Option-cases, String, [], false, if-false, if-true, if◌then◌else◌, inl,
  inr, none, some, sym, ℕ, ◌+◌, ◌==◌, ◌∙◌, ◌∷◌, ◌≡◌,
}
use supply_chain_execution.Common.Int.{int_laws, leb_ℤ, ltb_ℤ, pos, ℤ, ◌+ℤ◌, ◌<ℤ◌, ◌≤ℤ◌}
use supply_chain_execution.Core.Effect.{pure, resume_inv}
use supply_chain_execution.Core.Types.{EventType}
use supply_chain_execution.Events.Bus.{DomainEventPayload, EventBus, publish}
use supply_chain_execution.Events.Bus.Publish.{publish_state}
use supply_chain_execution.Inventory.Stock.{
  AllObjects, AllObjects-Holds, AllObjects-flush, AllObjects-put,
}
use supply_chain_execution.Persistence.Models.Events.{Json, Payload}
use supply_chain_execution.Persistence.Models.Procurement.{
  LineStatus, PurchaseOrder, PurchaseOrderLine,
}
use supply_chain_execution.Persistence.Queries.Procurement.{
  get_with_lines, purchase_order_id, put_purchase_order,
}
use supply_chain_execution.Persistence.Session.{Env, Session, flush_all}
use supply_chain_execution.Persistence.Table.{put, scalar_one_or_none, select}
use supply_chain_execution.Persistence.Table.Laws.{scalar_one-Holds, total}
use supply_chain_execution.Procurement.Orders.{
  Receipts, is_receivable, po_status_value, publish_event, receipt_for, receive_lines,
  receive_order, received_line, record_receipt, settle, with_lines,
}

-- A line is closed when all of it has come, and only then; no more than was ordered ever comes.
abbrev pub IsSoundCount : LineStatus → ℤ → ℤ → Type 0
IsSoundCount LineStatus.closed came due = came ≡ due
IsSoundCount LineStatus.open_line came due = came <ℤ due

abbrev pub IsSoundLine : PurchaseOrderLine → Type 0
IsSoundLine l = IsSoundCount l.line_status l.quantity_received l.quantity_ordered

abbrev pub IsSound : PurchaseOrder → Type 0
IsSound po = All IsSoundLine po.lines

-- No receipt takes units back.
abbrev pub IsReceipts : Receipts → Type 0
IsReceipts receipts = All (λ (e : ℕ × ℤ). pos 0 ≤ℤ e.1) receipts

receipt_for-positive :
    (id : ℕ) (receipts : Receipts) (q : ℤ)
    → IsReceipts receipts
    → receipt_for id receipts ≡ some q
    → pos 0 ≤ℤ q
unfolding receipt_for
receipt_for-positive id [] q h e = cc
receipt_for-positive id ((line, n) ∷ rest) q h e = elim (Bool-cases (line == id)) [
  | inl hit ↦
      let found : some n ≡ some q = sym (if-true _ _ _ hit) ∙ e in
      let same : n ≡ q = cc in rw (← same) h.0
  | inr miss ↦ receipt_for-positive id rest q h.1 (sym (if-false _ _ _ miss) ∙ e)
]

counts_on :
    (status : LineStatus) (came due q : ℤ)
    → pos 0 ≤ℤ q
    → ltb_ℤ due (came +ℤ q) ≡ false
    → IsSoundCount status came due
    → IsSoundCount (if leb_ℤ due (came +ℤ q) then LineStatus.closed else status) (came +ℤ q) due
counts_on status came due q p fits h = elim (Bool-cases (leb_ℤ due (came +ℤ q))) [
  | inl full ↦ rw full (grind (int_laws, fits, full))
  | inr short ↦ rw short (go status h short)
]
  where
    go :
        (status : LineStatus)
        → IsSoundCount status came due
        → leb_ℤ due (came +ℤ q) ≡ false
        → IsSoundCount status (came +ℤ q) due
    go LineStatus.closed h short = grind (int_laws, h, short, p)
    go LineStatus.open_line h short = grind (int_laws, short)

receive_lines-IsSoundLine :
    (receipts : Receipts) (ls : List PurchaseOrderLine) (total : ℤ)
    → IsReceipts receipts
    → All IsSoundLine ls
    → All IsSoundLine (receive_lines receipts ls total).1
unfolding receive_lines received_line
receive_lines-IsSoundLine receipts [] total r h = tt
receive_lines-IsSoundLine receipts (l ∷ ls) total r h =
    elim (Option-cases (receipt_for l.id receipts)) [
      | inl e ↦ rw (e, All) (h.0, receive_lines-IsSoundLine receipts ls total r h.1)
      | inr (q, e) ↦ elim (Bool-cases (ltb_ℤ l.quantity_ordered (l.quantity_received +ℤ q))) [
        | inl over ↦ rw (e, over, All) h
        | inr fits ↦
            rw (e, fits, All)
              (
                counts_on l.line_status l.quantity_received l.quantity_ordered q
                    (receipt_for-positive l.id receipts q r e) fits h.0,
                receive_lines-IsSoundLine receipts ls (total +ℤ q) r h.1,
              )
      ]
    ]

abbrev pub AllSound : Session → Type 0
AllSound s = AllObjects IsSound s.purchase_orders

publish_event-AllSound :
    (env : Env) (bus : EventBus) (po : PurchaseOrder) (action : String) (extra : Payload)
    (s : Session)
    → AllSound s
    → AllSound (publish_event env bus po action extra s).1
unfolding publish_event flush_all
publish_event-AllSound env none po action extra s h = h
publish_event-AllSound env (some redis) po action extra s h =
    let s₁ = record s { draws = s.draws + 1 } in
    let event : DomainEventPayload = record {
      event_type = EventType.po_submitted;
      aggregate_type = "purchase_order";
      aggregate_id = po.id;
      payload =
          ("po_number", Json.str po.po_number)
          ∷ ("status", Json.str (po_status_value po.status))
          ∷ ("action", Json.str action)
          ∷ extra;
      occurred_at = env.now s.draws;
    } in
    let (r, s') = publish env redis event s₁ in
    let kept : AllSound s' =
      rw (publish_state env redis event s₁) (AllObjects-flush IsSound s.purchase_orders h) in
    resume_inv AllSound r (λ _. pure tt) s' kept λ a e. kept

module _ (env : Env) (bus : EventBus) (receipts : Receipts) (r : IsReceipts receipts) where
  receive_order-AllSound :
      (po : PurchaseOrder) (s : Session)
      → IsSound po
      → AllSound s
      → AllSound (receive_order env bus receipts po s).1
  unfolding receive_order put_purchase_order
  receive_order-AllSound po s sound h =
      let (loop, ls) = receive_lines receipts po.lines (pos 0) in
      let good : All IsSoundLine ls = receive_lines-IsSoundLine receipts po.lines (pos 0) r sound in
      let s₁ : Session = record s {
        purchase_orders = put purchase_order_id (with_lines ls po) s.purchase_orders;
      } in
      let h₁ =
        AllObjects-put IsSound purchase_order_id (with_lines ls po) s.purchase_orders good h in
      resume_inv AllSound loop _ s₁ h₁ λ n e.
        let po' = settle (with_lines ls po) in
        let s₂ : Session = record s {
          purchase_orders = put purchase_order_id po' s₁.purchase_orders;
        } in
        let h₂ = AllObjects-put IsSound purchase_order_id po' s₁.purchase_orders good h₁ in
        let extra = ("total_received", Json.number n) ∷ [] in
        let (x, s₃) = publish_event env bus po' "receipt_recorded" extra s₂ in
        let h₃ = publish_event-AllSound env bus po' "receipt_recorded" extra s₂ h₂ in
        resume_inv AllSound x (λ _. pure po') s₃ h₃ λ a e. h₃

  -- Whatever receipts it is given, and whether it returns or raises over an excess, `record_receipt`
  -- keeps the lines of every order sound: a line is closed exactly when all its units have come, and
  -- none ever has more than was ordered. No receipt may be negative.
  pub record_receipt-AllSound :
      (id : ℕ) (s : Session) → AllSound s → AllSound (record_receipt env bus id receipts s).1
  unfolding record_receipt get_with_lines
  record_receipt-AllSound id s h =
      elim (Option-cases (scalar_one_or_none (select (λ po. po.id == id) s.purchase_orders))) [
        | inl e ↦ rw e h
        | inr (none, e) ↦ rw e h
        | inr (some po, e) ↦ elim (Bool-cases (is_receivable po.status)) [
          | inr refused ↦ rw (e, refused) h
          | inl taken ↦
              rw (e, taken)
                (receive_order-AllSound po s
                  (AllObjects-Holds IsSound po s.purchase_orders h
                    (scalar_one-Holds (λ x. x.id == id) s.purchase_orders po e))
                  h)
        ]
      ]
