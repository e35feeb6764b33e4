-- ===== src/Transportation/Routes.antt =====
-- src/nexusops/domain/transportation/routing.py. Distances are floats; `Geography` is Python's
-- mathematics on them and networkx's salesman, which gives nothing where it raises. A distance on
-- record has two decimal places, a rate four, and a cost six.
pub mod Plans
use supply_chain_execution.Common.{
  Bool, List, Option, [], if◌then◌else◌, leb, length, ltb, map, none, some, sorted, suc, zero, ℕ,
  ◌++◌, ◌+◌, ◌∷◌,
}
use supply_chain_execution.Common.Int.{pos, ℤ, ◌+ℤ◌}
use supply_chain_execution.Core.Validators.{Address}
use supply_chain_execution.Persistence.Models.Transport.{Carrier, ShipmentStop}
use supply_chain_execution.Persistence.Session.{truthy_or}
use supply_chain_execution.Persistence.Table.{add}
use supply_chain_execution.Transportation.Carriers.{Floats, times_decimal}
use supply_chain_execution.Transportation.Scheduling.{distance}

pub record Geography (F : Type 0) : Type 0 where
  pub floats : Floats F
  -- `float(address.get("latitude", 0))`, and of the longitude
  pub latitude : Address → F
  pub longitude : Address → F
  pub radians : F → F
  pub sin : F → F
  pub cos : F → F
  pub sqrt : F → F
  pub atan2 : F → F → F
  -- `round(x, 2)`, in hundredths
  pub round2 : F → ℤ
  pub greedy_tsp : List (ℕ × ℕ × F) → Option (List ℕ)

pub record RouteStop (F : Type 0) : Type 0 where
  pub stop_id : ℕ
  pub address : Address
  pub lat : F
  pub long : F

pub record RouteOption (F : Type 0) : Type 0 where
  pub carrier_id : ℕ
  pub stops : List (RouteStop F)
  pub total_distance_km : ℤ
  pub total_duration_minutes : ℤ
  pub estimated_cost : ℤ
  pub route_geometry : List ℕ

pub record RoutePlanningResult (F : Type 0) : Type 0 where
  pub shipment_id : ℕ
  pub options : List (RouteOption F)
  pub selected_option : Option (RouteOption F)
  pub optimization_run_id : Option ℕ

-- `service_time_minutes`
abbrev pub service_time : ℤ
service_time = pos 15

abbrev pub earlier_stop : ShipmentStop → ShipmentStop → Bool
earlier_stop a b = ltb a.sequence b.sequence

-- `range(n)`, from `k` on.
abbrev pub count_up : ℕ → ℕ → List ℕ
count_up k zero = []
count_up k (suc n) = k ∷ count_up (k + 1) n

module _ {F : Type 0} (geo : Geography F) (max_stops : ℕ) where
  open geo use {floats, latitude, longitude, radians, sin, cos, sqrt, atan2, round2, greedy_tsp}
  open floats use {ops, sub, truncate}
  open ops use {decimal, of_int, add, mul, div}

  -- `_build_stops`
  abbrev pub build_stop : ShipmentStop → RouteStop F
  build_stop x = record {
    stop_id = x.id;
    address = x.address;
    lat = latitude x.address;
    long = longitude x.address;
  }

  unfoldable pub build_stops : List ShipmentStop → List (RouteStop F)
  build_stops stops = map build_stop (sorted earlier_stop stops)

  abbrev pub square : F → F
  square x = mul x x

  -- `_haversine`
  unfoldable pub haversine : RouteStop F → RouteStop F → F
  haversine p q =
      let dlat = radians (sub q.lat p.lat) in
      let dlon = radians (sub q.long p.long) in
      let a = add (square (sin (div dlat (of_int (pos 2))))) (
        mul (mul (cos (radians p.lat)) (cos (radians q.lat)))
          (square (sin (div dlon (of_int (pos 2)))))) in
      mul (mul (decimal 63710 1) (of_int (pos 2))) (atan2 (sqrt a) (sqrt (sub (of_int (pos 1)) a)))

  -- The edges from stop `i` to those after it, the first of which is `j`.
  unfoldable pub edges_from : ℕ → RouteStop F → ℕ → List (RouteStop F) → List (ℕ × ℕ × F)
  edges_from i p j [] = []
  edges_from i p j (q ∷ qs) = (i, j, haversine p q) ∷ edges_from i p (j + 1) qs

  unfoldable pub all_edges : ℕ → List (RouteStop F) → List (ℕ × ℕ × F)
  all_edges i [] = []
  all_edges i (p ∷ ps) = edges_from i p (i + 1) ps ++ all_edges (i + 1) ps

  -- `_solve_tsp`
  unfoldable pub solve_tsp : List (ℕ × ℕ × F) → ℕ → List ℕ
  solve_tsp edges n =
      if leb n 2
      then count_up 0 n
      else elim (greedy_tsp edges) [ none ↦ count_up 0 n | some path ↦ path ]

  abbrev pub stop_at : List (RouteStop F) → ℕ → Option (RouteStop F)
  stop_at [] i = none
  stop_at (p ∷ ps) zero = some p
  stop_at (p ∷ ps) (suc i) = stop_at ps i

  -- `[stops[i] for i in ordered_indices]`, which raises on an index out of range.
  unfoldable pub stops_at : List (RouteStop F) → List ℕ → Option (List (RouteStop F))
  stops_at stops [] = some []
  stops_at stops (i ∷ is) = elim (stop_at stops i) [
    | none ↦ none
    | some p ↦ elim (stops_at stops is) [ none ↦ none | some ps ↦ some (p ∷ ps) ]
  ]

  -- The distance and the duration along the stops.
  unfoldable pub along : List (RouteStop F) → ℤ × ℤ
  along [] = (pos 0, pos 0)
  along (p ∷ []) = (pos 0, pos 0)
  along (p ∷ q ∷ rest) =
      let (distance, duration) = along (q ∷ rest) in
      let d = haversine p q in
      (round2 d +ℤ distance, truncate (mul d (of_int (pos 2))) +ℤ service_time +ℤ duration)

  abbrev pub ordered_indices : List (RouteStop F) → List ℕ
  ordered_indices stops =
      if ltb max_stops (length stops)
      then count_up 0 max_stops
      else solve_tsp (all_edges 0 stops) (length stops)

  abbrev pub stop_ids : List (RouteStop F) → List ℕ
  stop_ids stops = map (λ (p : RouteStop F). p.stop_id) stops

  -- The option along the ordered stops: a rate of 0.50 where there is none, and 25.00.
  abbrev pub option_along : Carrier → List (RouteStop F) → RouteOption F
  option_along c stops =
      let (distance, duration) = along stops in
      record {
        carrier_id = c.id;
        stops = stops;
        total_distance_km = distance;
        total_duration_minutes = duration;
        estimated_cost =
            times_decimal distance (truthy_or c.cost_per_kg (pos 5_000)) +ℤ pos 25_000_000;
        route_geometry = stop_ids stops;
      }

  -- `_compute_route`
  unfoldable pub compute_route : List (RouteStop F) → Carrier → Option (RouteOption F)
  compute_route stops c =
      if leb (length stops) 1
      then some (record {
        carrier_id = c.id;
        stops = stops;
        total_distance_km = pos 0;
        total_duration_minutes = pos 0;
        estimated_cost = pos 0;
        route_geometry = [];
      })
      else elim (stops_at stops (ordered_indices stops)) [
        | none ↦ none
        | some ordered_stops ↦ some (option_along c ordered_stops)
      ]

  unfoldable pub compute_routes : List (RouteStop F) → List Carrier → Option (List (RouteOption F))
  compute_routes stops [] = some []
  compute_routes stops (c ∷ cs) = elim (compute_route stops c) [
    | none ↦ none
    | some o ↦ elim (compute_routes stops cs) [ none ↦ none | some os ↦ some (o ∷ os) ]
  ]
