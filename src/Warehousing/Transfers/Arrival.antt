-- ===== src/Warehousing/Transfers/Arrival.antt =====
-- The units that arrive with a transfer: `receive_transfer` of domain/warehouse/transfers.py.
use mathlib.Core.Path.{subst}
use supply_chain_execution.Common.{
  Option, ap, if◌then◌else◌, none, refl, some, true, ℕ, ◌==◌, ◌∙◌, ◌≡◌,
}
use supply_chain_execution.Common.Int.{int_laws, pos, ℤ, ◌+ℤ◌, ◌≤ℤ◌}
use supply_chain_execution.Core.Effect.{Result, ok, resume-eq-ok}
use supply_chain_execution.Inventory.Stock.{
  IsSynced, IsSynced-put, get_balance-Holds, get_balance_state,
}
use supply_chain_execution.Persistence.Models.Inventory.{InventoryBalance, new_balance}
use supply_chain_execution.Persistence.Models.Warehouse.{WarehouseTransfer}
use supply_chain_execution.Persistence.Queries.Inventory.{
  add_balance, balance_id, get_balance, is_balance_of, put_balance,
}
use supply_chain_execution.Persistence.Session.{Env, Session, flush_all}
use supply_chain_execution.Persistence.Table.{add, put}
use supply_chain_execution.Persistence.Table.Laws.{
  HasKeys, HasKeys-put, Holds, total, total-add, total-flush, total-put,
}
use supply_chain_execution.Warehousing.Transfers.{arrive, credit, credit_found, receive_units}

-- The units on hand, and those in transit, of a SKU at a warehouse, outside any location.
abbrev pub on_hand_column : ℕ → ℕ → InventoryBalance → ℤ
on_hand_column w k b = if is_balance_of w k none b then b.on_hand else pos 0

abbrev pub on_hand_at : ℕ → ℕ → Session → ℤ
on_hand_at w k s = total (on_hand_column w k) s.balances

abbrev pub in_transit_column : ℕ → ℕ → InventoryBalance → ℤ
in_transit_column w k b = if is_balance_of w k none b then b.in_transit else pos 0

abbrev pub in_transit_at : ℕ → ℕ → Session → ℤ
in_transit_at w k s = total (in_transit_column w k) s.balances

-- The share of one warehouse in a movement at another.
abbrev pub share_of : ℕ → ℕ → ℤ → ℤ
share_of w v q = if w == v then q else pos 0

column_gains : (x c y c' u : ℤ) → x +ℤ c ≡ y +ℤ c' → c' ≡ c +ℤ u → x ≡ y +ℤ u
column_gains x c y c' u e f = grind (int_laws, e, f)

column_loses : (x c y c' u : ℤ) → x +ℤ c ≡ y +ℤ c' → c' +ℤ u ≡ c → x +ℤ u ≡ y
column_loses x c y c' u e f = grind (int_laws, e, f)

column_keeps : (x c y : ℤ) → x +ℤ c ≡ y +ℤ c → x ≡ y
column_keeps x c y e = grind (int_laws, e)

module _ (w k : ℕ) (q : ℤ) (b : InventoryBalance) (s : Session)
    (keys : HasKeys balance_id s.balances) (held : Holds b s.balances)
    (key : is_balance_of w k none b ≡ true) (v : ℕ) where
  -- The source's units leave transit.
  arrive-leaves :
      pos 0 ≤ℤ q
      → q ≤ℤ b.in_transit
      → (on_hand_at v k (put_balance (arrive q b) s).1 ≡ on_hand_at v k s)
        × (in_transit_at v k (put_balance (arrive q b) s).1 +ℤ share_of w v q ≡ in_transit_at v k s)
  unfolding put_balance
  arrive-leaves low upper =
      let own : in_transit_column v k (arrive q b) +ℤ share_of w v q ≡ in_transit_column v k b =
        grind int_laws in
      (
        column_keeps _ _ _
            (total-put balance_id (on_hand_column v k) b (arrive q b) s.balances keys held refl),
        column_loses _ _ _ _ _
            (total-put balance_id (in_transit_column v k) b (arrive q b) s.balances keys held refl)
            own,
      )

  -- They come to hand at a destination that has a balance.
  credit-comes :
      (on_hand_at v k (put_balance (credit q b) s).1 ≡ on_hand_at v k s +ℤ share_of w v q)
      × (in_transit_at v k (put_balance (credit q b) s).1 ≡ in_transit_at v k s)
  unfolding put_balance
  credit-comes =
      let own : on_hand_column v k (credit q b) ≡ on_hand_column v k b +ℤ share_of w v q =
        grind int_laws in
      (
        column_gains _ _ _ _ _
            (total-put balance_id (on_hand_column v k) b (credit q b) s.balances keys held refl)
            own,
        column_keeps _ _ _
            (total-put balance_id (in_transit_column v k) b (credit q b) s.balances keys held refl),
      )

credit_found-comes :
    (env : Env) (w k : ℕ) (q : ℤ) (found : Option InventoryBalance) (s : Session) (v : ℕ)
    → HasKeys balance_id s.balances
    → ((b : InventoryBalance)
        → found ≡ some b
        → Holds b s.balances × (is_balance_of w k none b ≡ true))
    → (on_hand_at v k (credit_found env w k q found s).1 ≡ on_hand_at v k s +ℤ share_of w v q)
      × (in_transit_at v k (credit_found env w k q found s).1 ≡ in_transit_at v k s)
unfolding credit_found add_balance flush_all
credit_found-comes env w k q (some b) s v keys held =
    let (h, key) = held b refl in credit-comes w k q b s keys h key v
credit_found-comes env w k q none s v keys held =
    let b : InventoryBalance = record (new_balance (env.uuid4 s.draws) w k) { on_hand = q } in
    let shelf =
      total-flush (on_hand_column v k) (add b s.balances)
      ∙ total-add (on_hand_column v k) b s.balances in
    let road =
      total-flush (in_transit_column v k) (add b s.balances)
      ∙ total-add (in_transit_column v k) b s.balances in
    (rw shelf (grind int_laws), rw road (grind int_laws))

-- When the units of a transfer have been received, at most those that the source's balance has in
-- transit, then over the balances of the SKU outside any location: those in transit fall by the
-- quantity at the source, and those on hand rise by it at the destination, whether or not it had a
-- balance, and neither changes at another warehouse. No two balances have one id, the objects have
-- the keys of their rows, and the quantity is not negative.
pub receive_units-moves :
    (env : Env) (t : WarehouseTransfer) (q : ℤ) (b : InventoryBalance) (s s' : Session)
    → HasKeys balance_id s.balances
    → IsSynced s.balances
    → get_balance t.source_warehouse_id t.sku_id none s ≡ (ok (some b), s)
    → pos 0 ≤ℤ q
    → q ≤ℤ b.in_transit
    → receive_units env t q s ≡ (ok tt, s')
    → (v : ℕ)
    → (in_transit_at v t.sku_id s' +ℤ share_of t.source_warehouse_id v q
        ≡ in_transit_at v t.sku_id s)
      × (on_hand_at v t.sku_id s'
          ≡ on_hand_at v t.sku_id s +ℤ share_of t.destination_warehouse_id v q)
unfolding receive_units put_balance
receive_units-moves env t q b s s' keys synced found low upper = rw found (λ e v.
    let w = t.source_warehouse_id in
    let d = t.destination_warehouse_id in
    let k = t.sku_id in
    let (held, key, _) = get_balance-Holds w k b s s synced found in
    let s₁ : Session = record s { balances = put balance_id (arrive q b) s.balances } in
    let (kept, gone) = arrive-leaves w k q b s keys held key v low upper in
    let keys₁ = HasKeys-put balance_id (arrive q b) s.balances keys in
    let synced₁ =
      IsSynced-put b (arrive q b) s.balances keys held (refl, refl, refl, refl) synced in
    let (r₂, s₂) = get_balance d k none s₁ in
    let same : s₂ ≡ s₁ = get_balance_state d k none s₁ in
    let (o, p, last) = resume-eq-ok r₂ (credit_found env d k q) s₂ s' tt e in
    let (came, road) = credit_found-comes env d k q o s₁ v keys₁ (λ x e'.
      let (h, y, _) =
        get_balance-Holds d k x s₁ s₂ synced₁
          (pair_eq (get_balance d k none s₁) (ok (some x)) (p ∙ ap ok e')) in
      (h, y)) in
    let ended : (credit_found env d k q o s₁).1 ≡ s' =
      rw (← same) (ap (λ (x : Result (Unit {0}) × Session). x.1) last) in
    subst
      (λ (x : Session).
        (in_transit_at v k x +ℤ share_of w v q ≡ in_transit_at v k s)
        × (on_hand_at v k x ≡ on_hand_at v k s +ℤ share_of d v q))
      ended (rw road gone, rw (came, kept) refl))
  where
    pair_eq :
        (m : Result (Option InventoryBalance) × Session) (o : Result (Option InventoryBalance))
        → m.0 ≡ o
        → m ≡ (o, m.1)
    pair_eq m o e = ap (λ (y : Result (Option InventoryBalance)). (y, m.1)) e
