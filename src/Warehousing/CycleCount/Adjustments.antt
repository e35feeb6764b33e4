-- ===== src/Warehousing/CycleCount/Adjustments.antt =====
-- What a cycle count's adjustment does to the units on hand (domain/warehouse/cycle_count.py).
use supply_chain_execution.Common.{
  Bool, Bool-cases, Option, [], ap, arith, inl, inr, none, refl, some, ℕ, ◌+◌, ◌∙◌, ◌∷◌, ◌≡◌, ◌≢◌,
}
use supply_chain_execution.Common.Int.{eqb_ℤ, int_laws, pos, ℤ, ◌+ℤ◌}
use supply_chain_execution.Core.Effect.{Result, ok, pure, resume_inv}
use supply_chain_execution.Core.Types.{EventType}
use supply_chain_execution.Events.Bus.{DomainEventPayload, EventBus, publish}
use supply_chain_execution.Events.Bus.Publish.{publish_state}
use supply_chain_execution.Inventory.Allocation.Solvency.{get_balance-found}
use supply_chain_execution.Persistence.Models.Events.{Json}
use supply_chain_execution.Persistence.Models.Inventory.{InventoryBalance}
use supply_chain_execution.Persistence.Queries.Events.{add_audit}
use supply_chain_execution.Persistence.Queries.Inventory.{balance_id, get_balance, put_balance}
use supply_chain_execution.Persistence.Session.{Env, Session, flush_all, truthy_or}
use supply_chain_execution.Persistence.Table.{add, put}
use supply_chain_execution.Persistence.Table.Laws.{HasKeys, total, total-flush, total-put}
use supply_chain_execution.Warehousing.CycleCount.{
  CycleCountLine, adjust, adjust_found, adjust_line, or_zero, publish_adjustment, variance,
}

abbrev pub on_hand_total : Session → ℤ
on_hand_total s = total (λ (b : InventoryBalance). b.on_hand) s.balances

abbrev HasTotal : ℤ → Session → Type 0
HasTotal n s = on_hand_total s ≡ n

publish_adjustment-HasTotal :
    (env : Env) (bus : EventBus) (override : Bool) (w : ℕ) (l : CycleCountLine) (n : ℤ)
    (s : Session)
    → HasTotal n s
    → HasTotal n (publish_adjustment env bus override w l s).1
unfolding publish_adjustment flush_all
publish_adjustment-HasTotal env none override w l n s h = h
publish_adjustment-HasTotal env (some redis) override w l n s h =
    let s₁ = record s { draws = s.draws + 1 } in
    let event : DomainEventPayload = record {
      event_type = EventType.inventory_adjusted;
      aggregate_type = "inventory";
      aggregate_id = l.sku_id;
      payload =
          ("warehouse_id", Json.uuid w)
          ∷ ("sku_id", Json.uuid l.sku_id)
          ∷ ("quantity_delta", Json.number (or_zero (variance l)))
          ∷ ("reason", Json.str "cycle_count")
          ∷ ("manual_override", Json.flag override)
          ∷ [];
      occurred_at = env.now s.draws;
    } in
    let (r, s') = publish env redis event s₁ in
    let kept : HasTotal n s' =
      rw (publish_state env redis event s₁) (total-flush (λ b. b.on_hand) s.balances ∙ h) in
    resume_inv (HasTotal n) r (λ _. pure tt) s' kept λ a e. kept

pick : (n d : ℤ) → (n ≢ pos 0 → truthy_or (some n) d ≡ n) × (n ≡ pos 0 → truthy_or (some n) d ≡ d)
pick n d = elim (Bool-cases (eqb_ℤ n (pos 0))) [
  | inl zero_count ↦
      rw zero_count (λ other. absurd (other (grind (int_laws, zero_count))), λ e. refl)
  | inr counted ↦ rw counted (λ other. refl, λ e. absurd (ground (arith, counted, e)))
]

cancel : (m t d x : ℤ) → m +ℤ d ≡ t +ℤ x → x ≡ d → m ≡ t
cancel m t d x e f = grind (int_laws, e, f)

-- When a counted line finds its balance, and no two balances have one id, its adjustment replaces
-- the balance's units on hand by the count, in the sum over all balances, whether or not the event
-- can be published; but a count of zero leaves the sum as it was.
pub adjust_line-on_hand :
    (env : Env) (bus : EventBus) (override : Bool) (w : ℕ) (l : CycleCountLine) (n count : ℤ)
    (b : InventoryBalance) (s : Session)
    → HasKeys balance_id s.balances
    → l.counted_quantity ≡ some n
    → get_balance w l.sku_id (some l.location_id) s ≡ (ok (some b), s)
    → (n ≢ pos 0
        → on_hand_total (adjust_line env bus override w l count s).1 +ℤ b.on_hand
          ≡ on_hand_total s +ℤ n)
      × (n ≡ pos 0 → on_hand_total (adjust_line env bus override w l count s).1 ≡ on_hand_total s)
unfolding adjust_line adjust_found put_balance add_audit flush_all
adjust_line-on_hand env bus override w l n count b s keys counted found =
    let column = λ (x : InventoryBalance). x.on_hand in
    let b' = adjust l b in
    let s₁ : Session = record s { balances = put balance_id b' s.balances } in
    let s₂ : Session = flush_all (record s₁ {
      audits =
          add
            (record {
              entity_id = l.sku_id;
              warehouse_id = w;
              before = b.on_hand;
              after = truthy_or l.counted_quantity b.on_hand;
            })
            s.audits;
    }) in
    let m = on_hand_total s₁ in
    let (r, s₃) = publish_adjustment env bus override w l s₂ in
    let kept : HasTotal m s₃ =
      publish_adjustment-HasTotal env bus override w l m s₂ (total-flush column s₁.balances) in
    let last = resume_inv (HasTotal m) r (λ _. pure (count +ℤ pos 1)) s₃ kept λ a e. kept in
    let held =
      get_balance-found w l.sku_id (some l.location_id) b s
        (ap (λ (x : Result (Option InventoryBalance) × Session). x.0) found) in
    let moved = total-put balance_id column b b' s.balances keys held refl in
    let (other, zero_count) = pick n b.on_hand in
    let set = ap (λ (q : Option ℤ). truthy_or q b.on_hand) counted in
    rw (found, last)
      (
        λ ne. moved ∙ ap (λ (x : ℤ). on_hand_total s +ℤ x) (set ∙ other ne),
        λ z. cancel m (on_hand_total s) b.on_hand b'.on_hand moved (set ∙ zero_count z),
      )
