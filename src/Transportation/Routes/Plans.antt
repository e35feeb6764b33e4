-- ===== src/Transportation/Routes/Plans.antt =====
-- src/nexusops/domain/transportation/routing.py: `plan_routes`.
use supply_chain_execution.Common.{
  Bool, List, Option, [], false, if◌then◌else◌, map, none, some, sorted, true, ℕ, ◌==◌, ◌∷◌,
}
use supply_chain_execution.Common.Int.{ltb_ℤ}
use supply_chain_execution.Core.Effect.{gets, ok, or_raise, pure, ◌>>=◌, ◌>>◌}
use supply_chain_execution.Core.Exceptions.{index_error, value_error}
use supply_chain_execution.Persistence.Models.Transport.{RoutePlan}
use supply_chain_execution.Persistence.Queries.Transport.{
  add_route_plan, get_with_stops, list_active_carriers, stops_of,
}
use supply_chain_execution.Persistence.Session.{Db, Env, Session, draw_uuid}
use supply_chain_execution.Persistence.Table.{Row, matches}
use supply_chain_execution.Transportation.Routes.{
  Geography, RouteOption, RoutePlanningResult, build_stops, compute_routes,
}

module _ {F : Type 0} (geo : Geography F) (max_stops : ℕ) where
  abbrev pub cheaper_option : RouteOption F → RouteOption F → Bool
  cheaper_option a b = ltb_ℤ a.estimated_cost b.estimated_cost

  abbrev pub plan_for : ℕ → ℕ → Bool → RouteOption F → RoutePlan
  plan_for shipment run selected o = record {
    shipment_id = shipment;
    carrier_id = o.carrier_id;
    total_distance_km = o.total_distance_km;
    total_duration_minutes = o.total_duration_minutes;
    estimated_cost = o.estimated_cost;
    route_geometry = o.route_geometry;
    optimization_run_id = some run;
    is_selected = selected;
  }

  -- `_persist_route_plans`; the first of the options is selected.
  unfoldable pub persist_route_plans : ℕ → ℕ → Bool → List (RouteOption F) → Db (Unit {0})
  persist_route_plans shipment run selected [] = pure tt
  persist_route_plans shipment run selected (o ∷ os) = do
    add_route_plan (plan_for shipment run selected o)
    persist_route_plans shipment run false os

  -- `_select_route`: the assignment to every plan that the query finds.
  abbrev pub select_plan : ℕ → ℕ → Row RoutePlan → Row RoutePlan
  select_plan shipment carrier row =
      if matches (λ (p : RoutePlan). p.shipment_id == shipment) row
      then record {
        stored = row.stored;
        current = record (row.current) { is_selected = row.current.carrier_id == carrier };
      }
      else row

  unfoldable pub select_route : ℕ → Option (RouteOption F) → Db (Unit {0})
  select_route shipment none s = (ok tt, s)
  select_route shipment (some o) s =
      (ok tt, record s { route_plans = map (select_plan shipment o.carrier_id) s.route_plans })

  abbrev pub first_option : List (RouteOption F) → Option (RouteOption F)
  first_option [] = none
  first_option (o ∷ os) = some o

  unfoldable pub plan_routes : Env → ℕ → Db (RoutePlanningResult F)
  plan_routes env shipment = do
    found ← get_with_stops shipment
    x ← or_raise found value_error
    carriers ← gets list_active_carriers
    stops ← gets (λ (s : Session). build_stops geo max_stops (stops_of shipment s))
    computed ← or_raise (compute_routes geo max_stops stops carriers) index_error
    let options = sorted cheaper_option computed
    run ← draw_uuid env
    persist_route_plans shipment run true options
    select_route shipment (first_option options)
    pure (record {
      shipment_id = shipment;
      options = options;
      selected_option = first_option options;
      optimization_run_id = some run;
    })
