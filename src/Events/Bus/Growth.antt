-- ===== src/Events/Bus/Growth.antt =====
-- The handler lists that `dispatch` (events/bus.py) leaves in the registry.
use supply_chain_execution.Common.{
  Bool-cases, List, [], ap, arith, if-false, if-true, inl, inr, length, length-append, refl, some,
  suc, sym, zero, ℕ, ◌*◌, ◌++◌, ◌+◌, ◌∙◌, ◌∷◌, ◌≡◌,
}
use supply_chain_execution.Core.Types.{EventType, same_event}
use supply_chain_execution.Events.Bus.{
  Handler, Registry, after_dispatch, every, extend_registered, handlers_for, of_type, or_empty,
  registered, same_topic,
}

unfoldable pub after_dispatches : ℕ → EventType → Registry → Registry
after_dispatches zero kind registry = registry
after_dispatches (suc n) kind registry = after_dispatches n kind (after_dispatch kind registry)

registered-extend :
    (kind : EventType) (more handlers : List Handler) (registry : Registry)
    → registered (of_type kind) registry ≡ some handlers
    → registered (of_type kind) (extend_registered (of_type kind) more registry)
      ≡ some (handlers ++ more)
unfolding registered extend_registered
registered-extend kind more handlers [] e = cc
registered-extend kind more handlers ((key, hs) ∷ rest) e =
    elim (Bool-cases (same_topic key (of_type kind))) [
      | inl hit ↦
          let found : some hs ≡ some handlers = sym (if-true _ _ _ hit) ∙ e in
          let same : hs ≡ handlers = cc in
          rw hit (if-true _ _ _ hit ∙ ap (λ (l : List Handler). some (l ++ more)) same)
      | inr miss ↦ rw miss (
          if-false _ _ _ miss
          ∙ registered-extend kind more handlers rest (sym (if-false _ _ _ miss) ∙ e))
    ]

every-extend :
    (kind : EventType) (more : List Handler) (registry : Registry)
    → registered every (extend_registered (of_type kind) more registry) ≡ registered every registry
unfolding registered extend_registered
every-extend kind more [] = refl
every-extend kind more ((of_type k, hs) ∷ rest) = elim (Bool-cases (same_event k kind)) [
  | inl hit ↦ rw hit refl
  | inr miss ↦ rw miss (every-extend kind more rest)
]
every-extend kind more ((every, hs) ∷ rest) = refl

-- If an event type has subscribers, each dispatch of such an event adds the "*" handlers once more
-- to the type's own list: after `n` dispatches the next one runs as many handlers as the type had
-- at first, and `n + 1` times the number of "*" handlers.
pub handlers_for-growth :
    (kind : EventType) (own every_event : List Handler) (registry : Registry) (n : ℕ)
    → registered (of_type kind) registry ≡ some own
    → or_empty (registered every registry) ≡ every_event
    → length (handlers_for kind (after_dispatches n kind registry))
      ≡ length own + suc n * length every_event
unfolding handlers_for after_dispatches after_dispatch
handlers_for-growth kind own every_event registry zero e f =
    rw (e, f) (omega (arith, length-append own every_event))
handlers_for-growth kind own every_event registry (suc n) e f =
    let more = or_empty (registered every registry) in
    let rest =
      handlers_for-growth kind (own ++ more) every_event
        (extend_registered (of_type kind) more registry) n
        (registered-extend kind more own registry e)
        (ap or_empty (every-extend kind more registry) ∙ f) in
    let l = length-append own more in
    let m : length more ≡ length every_event = ap length f in rest ∙ omega (arith, l, m)
