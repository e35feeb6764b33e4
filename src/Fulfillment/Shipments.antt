-- ===== src/Fulfillment/Shipments.antt =====
-- src/nexusops/domain/fulfillment/shipment_generation.py: the transition table and
-- `ShipmentGenerator.transition_state`.
pub mod Trail
pub mod Visits
use supply_chain_execution.Common.{Bool, List, [], any, if◌then◌else◌, not, some, ℕ, ◌++◌, ◌∷◌}
use supply_chain_execution.Common.Int.{pos, ℤ, ◌+ℤ◌}
use supply_chain_execution.Core.Effect.{pure, raise_if, ◌>>=◌, ◌>>◌}
use supply_chain_execution.Core.Exceptions.{shipment_state_error}
use supply_chain_execution.Core.Types.{ShipmentStatus, same_shipment}
use supply_chain_execution.Persistence.Models.Transport.{Shipment}
use supply_chain_execution.Persistence.Queries.Transport.{get_shipment, put_shipment}
use supply_chain_execution.Persistence.Session.{Db, Env, draw_now}

-- `VALID_TRANSITIONS`
unfoldable pub valid_transitions : ShipmentStatus → List ShipmentStatus
valid_transitions ShipmentStatus.draft = ShipmentStatus.planned ∷ ShipmentStatus.cancelled ∷ []
valid_transitions ShipmentStatus.planned =
    ShipmentStatus.consolidated ∷ ShipmentStatus.label_generated ∷ ShipmentStatus.cancelled ∷ []
valid_transitions ShipmentStatus.consolidated =
    ShipmentStatus.label_generated ∷ ShipmentStatus.cancelled ∷ []
valid_transitions ShipmentStatus.label_generated =
    ShipmentStatus.in_transit ∷ ShipmentStatus.cancelled ∷ []
valid_transitions ShipmentStatus.in_transit =
    ShipmentStatus.out_for_delivery ∷ ShipmentStatus.exception ∷ ShipmentStatus.delivered ∷ []
valid_transitions ShipmentStatus.out_for_delivery =
    ShipmentStatus.delivered ∷ ShipmentStatus.exception ∷ []
valid_transitions ShipmentStatus.exception =
    ShipmentStatus.in_transit ∷ ShipmentStatus.cancelled ∷ []
valid_transitions ShipmentStatus.delivered = []
valid_transitions ShipmentStatus.cancelled = []

abbrev pub is_allowed : ShipmentStatus → ShipmentStatus → Bool
is_allowed current new = any (same_shipment new) (valid_transitions current)

-- The assignments of `transition_state`; `logged` and `delivered` are the two times that it draws.
unfoldable pub moved : ShipmentStatus → ℤ → ℤ → Shipment → Shipment
moved new logged delivered x = record x {
  status = new;
  state_history =
      x.state_history ++ record { status = new; timestamp = logged; previous = some x.status } ∷ [];
  version = x.version +ℤ pos 1;
  actual_delivery =
      if same_shipment new ShipmentStatus.delivered then some delivered else x.actual_delivery;
}

unfoldable pub draw_delivery : Env → ShipmentStatus → ℤ → Db ℤ
draw_delivery env new logged =
    if same_shipment new ShipmentStatus.delivered then draw_now env else pure logged

unfoldable pub transition_state : Env → ℕ → ShipmentStatus → Db Shipment
transition_state env id new = do
  x ← get_shipment id
  raise_if (not (is_allowed x.status new)) (shipment_state_error id x.status new)
  logged ← draw_now env
  delivered ← draw_delivery env new logged
  put_shipment (moved new logged delivered x)
  pure (moved new logged delivered x)
