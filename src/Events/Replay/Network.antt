-- ===== src/Events/Replay/Network.antt =====
-- Whose units `rebuild_inventory_projection` (events/replay.py) counts.
use mathlib.Core.Option
use supply_chain_execution.Common.{
  Bool, Bool-cases, List, Option, Option-cases, [], ap, false, if◌then◌else◌, inl, inr, none, not,
  refl, some, sym, true, ℕ, ◌∙◌, ◌∷◌, ◌≡◌,
}
use supply_chain_execution.Common.Int.{int_laws, pos, sum_of, ℤ, ◌+ℤ◌}
use supply_chain_execution.Core.Effect.{ok}
use supply_chain_execution.Core.Types.{EventType, same_event}
use supply_chain_execution.Events.Replay.{
  Projection, names_warehouse, number_of, project, project_all, rebuild_inventory_projection,
}
use supply_chain_execution.Persistence.Models.Events.{DomainEvent, Json, payload_get}
use supply_chain_execution.Persistence.Queries.Events.{list_for_aggregate}
use supply_chain_execution.Persistence.Session.{Session}

abbrev or_zero : Option ℤ → ℤ
or_zero none = pos 0
or_zero (some n) = n

abbrev delta_number : DomainEvent → Option ℤ
delta_number e = number_of (payload_get "quantity_delta" (Json.number (pos 0)) e.payload)

-- What an event adds to the units on hand, at whatever warehouse.
abbrev pub delta_of : DomainEvent → ℤ
delta_of e =
    if same_event e.event_type EventType.inventory_adjusted then or_zero (delta_number e) else pos 0

abbrev hand : ℤ → Option Projection → ℤ
hand d none = d
hand d (some p) = p.on_hand

hand-map :
    (f : ℤ → Projection) (d : ℤ) (m : Option ℤ)
    → ((n : ℤ) → (f n).on_hand ≡ d)
    → hand d (Option.map f m) ≡ d
hand-map f d none same = refl
hand-map f d (some n) same = same n

others_hand :
    (a r c : Bool) (m k : Option ℤ) (p : Projection)
    → hand p.on_hand (
        if a
        then some p
        else if r
        then Option.map (λ (n : ℤ). record p { reserved = p.reserved +ℤ n }) m
        else if c
        then Option.map (λ (n : ℤ). record p { allocated = p.allocated +ℤ n }) k
        else some p)
      ≡ p.on_hand
others_hand true r c m k p = refl
others_hand false true c m k p = hand-map _ p.on_hand m λ n. refl
others_hand false false true m k p = hand-map _ p.on_hand k λ n. refl
others_hand false false false m k p = refl

adjusted_hand :
    (m : Option ℤ) (p q : Projection)
    → Option.map (λ (n : ℤ). record p { on_hand = p.on_hand +ℤ n }) m ≡ some q
    → q.on_hand ≡ p.on_hand +ℤ or_zero m
adjusted_hand none p q e = cc
adjusted_hand (some n) p q e = ap (hand (pos 0)) (sym e)

add_zero : (n : ℤ) → n ≡ n +ℤ pos 0
add_zero n = grind int_laws

project-on_hand :
    (w : ℕ) (e : DomainEvent) (p q : Projection)
    → project w e p ≡ some q
    → q.on_hand ≡ p.on_hand +ℤ delta_of e
unfolding project
project-on_hand w e p q = elim (Bool-cases (same_event e.event_type EventType.inventory_adjusted)) [
  | inl own ↦ rw own (adjusted_hand (delta_number e) p q)
  | inr other ↦ rw other (λ returns.
      ap (hand p.on_hand) (sym returns)
      ∙ others_hand (not (names_warehouse w e.payload))
          (same_event e.event_type EventType.inventory_reserved)
          (same_event e.event_type EventType.allocation_created)
          (number_of (payload_get "quantity" (Json.number (pos 0)) e.payload))
          (number_of (payload_get "quantity" (Json.number (pos 0)) e.payload)) p
      ∙ add_zero p.on_hand)
]

project_all-on_hand :
    (w : ℕ) (es : List DomainEvent) (p q : Projection)
    → project_all w es p ≡ some q
    → q.on_hand ≡ p.on_hand +ℤ sum_of delta_of es
unfolding project_all Option.bind
project_all-on_hand w [] p q = λ e. ap (hand (pos 0)) (sym e) ∙ add_zero p.on_hand
project_all-on_hand w (x ∷ xs) p q = elim (Option-cases (project w x p)) [
  | inl missing ↦ rw missing (λ e. cc)
  | inr (p', step') ↦ rw step' (λ e.
      let one = project-on_hand w x p p' step' in
      let rest = project_all-on_hand w xs p' q e in grind (int_laws, one, rest))
]

zero_plus : (n : ℤ) → pos 0 +ℤ n ≡ n
zero_plus n = grind int_laws

-- When `rebuild_inventory_projection` returns, its units on hand are the sum of all adjustments of
-- the SKU, those of other warehouses too: the warehouse that it was asked for does not matter.
pub rebuild_inventory_projection-on_hand :
    (w sku : ℕ) (p : Projection) (n : ℕ) (s s' : Session)
    → rebuild_inventory_projection w sku s ≡ (ok (p, n), s')
    → p.on_hand ≡ sum_of delta_of (list_for_aggregate "inventory" sku s)
unfolding rebuild_inventory_projection
rebuild_inventory_projection-on_hand w sku p n s s' =
    let es = list_for_aggregate "inventory" sku s in
    let none_yet : Projection = record { on_hand = pos 0; reserved = pos 0; allocated = pos 0 } in
    elim (Option-cases (project_all w es none_yet)) [
      | inl missing ↦ rw missing (λ e. cc)
      | inr (q, found) ↦ rw found (λ e.
          let same : q ≡ p = cc in
          rw (← same) (project_all-on_hand w es none_yet q found ∙ zero_plus (sum_of delta_of es)))
    ]
