-- ===== src/Transportation/Consolidation.antt =====
-- src/nexusops/domain/transportation/consolidation.py. A weight is in ten-thousandths of a
-- kilogram, the column's last place; savings are whole. Nothing in `consolidate_window` raises, so
-- its loops give their variables beside the session.
pub mod Groups
pub mod Members
use text.Mathlib.Text.{◌==◌ as str_eq}
use Prim.Native.String.{◌++◌ as str_append}
use supply_chain_execution.Common.{
  Bool, List, Option, String, [], if◌then◌else◌, leb, length, none, some, sorted, suc, true, zero,
  ℕ, ◌*◌, ◌++◌, ◌+◌, ◌==◌, ◌||◌, ◌∷◌,
}
use supply_chain_execution.Common.Int.{ltb_ℤ, pos, ℤ, ◌+ℤ◌}
use supply_chain_execution.Core.Effect.{gets, ok, ◌>>=◌, ◌>>◌}
use supply_chain_execution.Core.Validators.{Address}
use supply_chain_execution.Persistence.Models.Transport.{Shipment}
use supply_chain_execution.Persistence.Queries.Transport.{
  list_consolidation_candidates, put_shipment,
}
use supply_chain_execution.Persistence.Session.{Db, Env, Session, draw_now, minute, truthy_or}

pub record ConsolidationGroup : Type 0 where
  pub group_id : ℕ
  pub warehouse_id : ℕ
  pub shipment_ids : List ℕ
  pub total_weight_kg : ℤ
  pub destination_region : String
  pub estimated_savings : ℕ

pub record ConsolidationResult : Type 0 where
  pub groups : List ConsolidationGroup
  pub shipments_consolidated : ℕ
  pub total_savings : ℕ

abbrev pub max_group_weight_kg : ℤ
max_group_weight_kg = pos 5_000_000

abbrev pub max_group_size : ℕ
max_group_size = 10

-- `address.get(key, default)`
unfoldable pub get_or : String → String → Address → String
get_or key default [] = default
get_or key default ((k, v) ∷ rest) = if str_eq k key then v else get_or key default rest

-- `text[:n]`
unfoldable pub prefix : ℕ → String → String
prefix zero text = ""
prefix (suc n) String.[] = ""
prefix (suc n) (String.◌∷◌ c rest) = String.◌∷◌ c (prefix n rest)

-- `_extract_region`
unfoldable pub extract_region : Address → String
extract_region address =
    str_append (str_append (get_or "state" "UNKNOWN" address) "-")
      (prefix 3 (get_or "postal_code" "" address))

abbrev pub Regions : Type 0
Regions = List (String × List Shipment)

-- `region_groups.setdefault(region, []).append(shipment)`
unfoldable pub add_to_region : String → Shipment → Regions → Regions
add_to_region region x [] = (region, x ∷ []) ∷ []
add_to_region region x ((r, l) ∷ rest) =
    if str_eq r region then (r, l ++ x ∷ []) ∷ rest else (r, l) ∷ add_to_region region x rest

unfoldable pub group_by_region : Regions → List Shipment → Regions
group_by_region regions [] = regions
group_by_region regions (x ∷ xs) =
    group_by_region (add_to_region (extract_region x.destination_address) x regions) xs

abbrev pub weight_or_zero : Shipment → ℤ
weight_or_zero x = truthy_or x.total_weight_kg (pos 0)

-- Ten kilograms where there is no weight.
abbrev pub weight_of : Shipment → ℤ
weight_of x = truthy_or x.total_weight_kg (pos 100_000)

abbrev pub lighter : Shipment → Shipment → Bool
lighter a b = ltb_ℤ (weight_or_zero a) (weight_or_zero b)

-- The variables of the loops.
pub record Packing : Type 0 where
  pub groups : List ConsolidationGroup
  pub current_group : Option ConsolidationGroup
  pub total_consolidated : ℕ
  pub total_savings : ℕ

abbrev pub needs_group : ℤ → Option ConsolidationGroup → Bool
needs_group weight none = true
needs_group weight (some g) =
    leb max_group_size (length g.shipment_ids)
    || ltb_ℤ max_group_weight_kg (g.total_weight_kg +ℤ weight)

-- `if current_group and current_group.shipment_ids: groups.append(current_group)`
abbrev pub close_group :
    Option ConsolidationGroup → List ConsolidationGroup → List ConsolidationGroup
close_group none groups = groups
close_group (some g) groups = if length g.shipment_ids == 0 then groups else groups ++ g ∷ []

abbrev pub new_group : ℕ → ℕ → String → ConsolidationGroup
new_group id warehouse region = record {
  group_id = id;
  warehouse_id = warehouse;
  shipment_ids = [];
  total_weight_kg = pos 0;
  destination_region = region;
  estimated_savings = 0;
}

-- The assignments to the group that the shipment joins, and to the shipment.
unfoldable pub join_group :
    Shipment → List ConsolidationGroup → ConsolidationGroup → Packing → Session → Packing × Session
join_group x groups g p s = (
  record p {
    groups = groups;
    current_group = some (record g {
      shipment_ids = g.shipment_ids ++ x.id ∷ [];
      total_weight_kg = g.total_weight_kg +ℤ weight_of x;
    });
    total_consolidated = p.total_consolidated + 1;
  },
  (put_shipment (record x { consolidation_group_id = some g.group_id }) s).1,
)

-- With a group at hand, or none.
unfoldable pub pack_into :
    Env → ℕ → String → Shipment → Option ConsolidationGroup → Packing → Session → Packing × Session
pack_into env warehouse region x none p s =
    join_group x (close_group p.current_group p.groups)
      (new_group (env.uuid4 s.draws) warehouse region) p (record s { draws = s.draws + 1 })
pack_into env warehouse region x (some g) p s = join_group x p.groups g p s

abbrev pub fitting : ℤ → Option ConsolidationGroup → Option ConsolidationGroup
fitting weight current = if needs_group weight current then none else current

-- The inner loop.
unfoldable pub pack_shipments :
    Env → ℕ → String → List Shipment → Packing → Session → Packing × Session
pack_shipments env warehouse region [] p s = (p, s)
pack_shipments env warehouse region (x ∷ xs) p s =
    let (p', s') = pack_into env warehouse region x (fitting (weight_of x) p.current_group) p s in
    pack_shipments env warehouse region xs p' s'

-- What follows the inner loop.
unfoldable pub finish_region : Option ConsolidationGroup → Packing → Packing
finish_region none p = p
finish_region (some g) p = if length g.shipment_ids == 0 then p else record p {
  groups = p.groups ++ record g { estimated_savings = length g.shipment_ids * 5 } ∷ [];
  total_savings = p.total_savings + length g.shipment_ids * 5;
}

-- The outer loop. Each region starts with no current group.
unfoldable pub pack_regions : Env → ℕ → Regions → Packing → Session → Packing × Session
pack_regions env warehouse [] p s = (p, s)
pack_regions env warehouse ((region, l) ∷ rest) p s =
    let (p', s') =
      pack_shipments env warehouse region (sorted lighter l) (record p { current_group = none })
        s in
    pack_regions env warehouse rest (finish_region p'.current_group p') s'

abbrev pub start_packing : Packing
start_packing = record {
  groups = [];
  current_group = none;
  total_consolidated = 0;
  total_savings = 0;
}

abbrev pub result_of : Packing → ConsolidationResult
result_of p = record {
  groups = p.groups;
  shipments_consolidated = p.total_consolidated;
  total_savings = p.total_savings;
}

abbrev pub hour_microseconds : ℕ
hour_microseconds = 60 * minute

-- `window_start or now`
abbrev pub start_or : ℤ → Option ℤ → ℤ
start_or now none = now
start_or now (some t) = t

-- `hours` is the setting `consolidation_window_hours`.
unfoldable pub consolidate_window : Env → ℕ → ℕ → Option ℤ → Db ConsolidationResult
consolidate_window env hours warehouse window_start = do
  now ← draw_now env
  let first = start_or now window_start
  candidates ←
      gets
        (list_consolidation_candidates warehouse first (first +ℤ pos (hours * hour_microseconds)))
  (λ (s : Session).
      let (p, s') = pack_regions env warehouse (group_by_region [] candidates) start_packing s in
      (ok (result_of p), s'))
