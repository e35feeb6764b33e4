-- ===== src/Persistence/Queries/Transport.antt =====
-- src/nexusops/repositories/transportation.py
use supply_chain_execution.Common.{
  Bool, List, Option, false, is_some, none, not, some, ℕ, ◌&&◌, ◌==◌,
}
use supply_chain_execution.Common.Int.{leb_ℤ, ℤ}
use supply_chain_execution.Core.Effect.{ok, or_raise}
use supply_chain_execution.Core.Exceptions.{multiple_results_found, not_found}
use supply_chain_execution.Core.Types.{ShipmentStatus, same_shipment}
use supply_chain_execution.Persistence.Models.Transport.{Carrier, RoutePlan, Shipment, ShipmentStop}
use supply_chain_execution.Persistence.Session.{Db, Session, flush_all}
use supply_chain_execution.Persistence.Table.{add, get, put, scalar_one_or_none, select}

abbrev pub shipment_id : Shipment → ℕ
shipment_id x = x.id

unfoldable pub get_shipment : ℕ → Db Shipment
get_shipment id s = or_raise (get shipment_id id s.shipments) (not_found id) s

unfoldable pub put_shipment : Shipment → Db (Unit {0})
put_shipment x s = (ok tt, record s { shipments = put shipment_id x s.shipments })

-- `get_by_id`
unfoldable pub find_shipment : ℕ → Session → Option Shipment
find_shipment id s = get shipment_id id s.shipments

unfoldable pub add_shipment : Shipment → Db (Unit {0})
add_shipment x s = (ok tt, flush_all (record s { shipments = add x s.shipments }))

-- `session.add` alone.
unfoldable pub add_stop : ShipmentStop → Db (Unit {0})
add_stop x s = (ok tt, record s { stops = add x s.stops })

unfoldable pub list_active_carriers : Session → List Carrier
list_active_carriers s = select (λ (c : Carrier). c.is_active) s.carriers

-- A comparison with a missing time is not true.
abbrev pub between : ℤ → ℤ → Option ℤ → Bool
between low top none = false
between low top (some t) = leb_ℤ low t && leb_ℤ t top

abbrev pub is_candidate : ℕ → ℤ → ℤ → Shipment → Bool
is_candidate warehouse low top x =
    (x.warehouse_id == warehouse)
    && same_shipment x.status ShipmentStatus.planned
    && not (is_some x.consolidation_group_id)
    && between low top x.scheduled_pickup

unfoldable pub list_consolidation_candidates : ℕ → ℤ → ℤ → Session → List Shipment
list_consolidation_candidates warehouse low top s =
    select (is_candidate warehouse low top) s.shipments

-- `get_with_stops`: the shipment, and its stops.
unfoldable pub get_with_stops : ℕ → Db (Option Shipment)
get_with_stops id s =
    or_raise (scalar_one_or_none (select (λ (x : Shipment). x.id == id) s.shipments))
      multiple_results_found s

unfoldable pub stops_of : ℕ → Session → List ShipmentStop
stops_of shipment s = select (λ (x : ShipmentStop). x.shipment_id == shipment) s.stops

unfoldable pub add_route_plan : RoutePlan → Db (Unit {0})
add_route_plan p s = (ok tt, flush_all (record s { route_plans = add p s.route_plans }))
