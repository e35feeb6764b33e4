-- ===== src/Optimization/Cost.antt =====
-- src/nexusops/domain/optimization/cost.py: the costs of an order and of a shipment. Money has four
-- decimal places for an order, and eight for a shipment, where it is a rate times a weight.
use supply_chain_execution.Common.{
  Bool, List, Option, String, [], false, find?, if◌then◌else◌, length, ltb, map, none, not, some,
  sorted, true, ℕ, ◌++◌, ◌∷◌,
}
use supply_chain_execution.Common.Int.{eqb_ℤ, ltb_ℤ, pos, sum_of, ℤ, ◌+ℤ◌, ◌-ℤ◌}
use supply_chain_execution.Core.Effect.{gets, or_raise, pure, ◌>>=◌}
use supply_chain_execution.Core.Exceptions.{value_error}
use supply_chain_execution.Fulfillment.Routing.{times}
use supply_chain_execution.Persistence.Models.Fulfillment.{Order, OrderLine}
use supply_chain_execution.Persistence.Models.Transport.{Carrier}
use supply_chain_execution.Persistence.Queries.Fulfillment.{get_order_with_lines}
use supply_chain_execution.Persistence.Queries.Transport.{get_shipment, list_active_carriers}
use supply_chain_execution.Persistence.Queries.Warehouse.{list_active}
use supply_chain_execution.Persistence.Session.{Db, Session, truthy_or}
use supply_chain_execution.Persistence.Table.{get}
use supply_chain_execution.Persistence.Table.Laws.{total}
use supply_chain_execution.Transportation.Carriers.{Floats, estimate_cost, times_decimal}

pub data Category : Type 0 where
  picking packing storage shipping : Category
  product weight_based carrier_rate handling : Category

pub record CostComponent : Type 0 where
  pub category : Category
  pub amount : ℤ
  pub quantity : ℤ

pub record CostBreakdown : Type 0 where
  pub reference_id : ℕ
  pub components : List CostComponent

abbrev pub amount_of : CostComponent → ℤ
amount_of c = c.amount

-- The property `total`.
unfoldable pub total_cost : CostBreakdown → ℤ
total_cost b = sum_of amount_of b.components

pub data Advice : Type 0 where
  consolidate_lines single_warehouse : Advice
  use_carrier : String → Advice

pub record CostOptimizationResult (F : Type 0) : Type 0 where
  pub original_cost : ℤ
  pub optimized_cost : ℤ
  pub savings : ℤ
  pub savings_pct : F
  pub recommendations : List Advice

abbrev pub pick_cost_per_line : ℕ
pick_cost_per_line = 15_000

abbrev pub pack_cost_per_package : ℤ
pack_cost_per_package = pos 30_000

abbrev pub storage_cost_per_unit_day : ℕ
storage_cost_per_unit_day = 200

abbrev pub base_shipping_cost : ℤ
base_shipping_cost = pos 150_000

abbrev pub component : Category → ℤ → ℤ → CostComponent
component category amount quantity = record {
  category = category;
  amount = amount;
  quantity = quantity;
}

abbrev pub ordered_units : OrderLine → ℤ
ordered_units line = line.quantity_ordered

abbrev pub product_component : OrderLine → CostComponent
product_component line =
    component Category.product (times_decimal line.unit_price line.quantity_ordered)
      line.quantity_ordered

-- The components of an order that is there.
unfoldable pub order_components : Order → List CostComponent
order_components order =
    let lines = pos (length order.lines) in
    let units = sum_of ordered_units order.lines in
    component Category.picking (times pick_cost_per_line lines) lines
    ∷ component Category.packing pack_cost_per_package (pos 1)
    ∷ component Category.storage (times 3 (times storage_cost_per_unit_day units)) units
    ∷ component Category.shipping base_shipping_cost (pos 1)
    ∷ map product_component order.lines

unfoldable pub analyze_order_cost : ℕ → Db CostBreakdown
analyze_order_cost order_id = do
  found ← get_order_with_lines order_id
  order ← or_raise found value_error
  pure (record { reference_id = order_id; components = order_components order })

abbrev pub is_picking : CostComponent → Bool
is_picking c = elim c.category [ Category.picking ↦ true | _ ↦ false ]

abbrev pub many_picks : Option CostComponent → Bool
many_picks none = false
many_picks (some c) = ltb_ℤ (pos 3) c.quantity

-- `carrier.cost_per_kg or Decimal("999")`
abbrev pub rate_or_999 : Carrier → ℤ
rate_or_999 c = truthy_or c.cost_per_kg (pos 9_990_000)

-- `min(carriers, key=...)`: the first of the cheapest.
unfoldable pub cheapest_carrier : Carrier → List Carrier → Carrier
cheapest_carrier best [] = best
cheapest_carrier best (c ∷ cs) =
    cheapest_carrier (if ltb_ℤ (rate_or_999 c) (rate_or_999 best) then c else best) cs

abbrev pub carrier_advice : List Carrier → List Advice
carrier_advice [] = []
carrier_advice (c ∷ cs) = use_carrier (cheapest_carrier c cs).carrier_code ∷ []

-- `BASE_SHIPPING_COST * Decimal("0.85")`
abbrev pub optimized_shipping : ℤ
optimized_shipping = pos 127_500

module _ {F : Type 0} (floats : Floats F) where
  -- `float(savings / total * 100)`, or 0
  abbrev pub percentage : ℤ → ℤ → F
  percentage savings total =
      if ltb_ℤ (pos 0) total
      then floats.quotient (times 100 savings) total
      else floats.ops.of_int (pos 0)

  unfoldable pub optimize_order_fulfillment_cost : ℕ → Db (CostOptimizationResult F)
  optimize_order_fulfillment_cost order_id = do
    original ← analyze_order_cost order_id
    warehouses ← gets list_active
    carriers ← gets list_active_carriers
    let total = total_cost original
    let optimized = total -ℤ base_shipping_cost +ℤ optimized_shipping
    pure (record {
      original_cost = total;
      optimized_cost = optimized;
      savings = total -ℤ optimized;
      savings_pct = percentage (total -ℤ optimized) total;
      recommendations =
          (if many_picks (find? is_picking original.components) then consolidate_lines ∷ [] else [])
          ++ ((if ltb 1 (length warehouses) then single_warehouse ∷ [] else [])
              ++ carrier_advice carriers);
    })

abbrev pub charges : Option ℤ → Bool
charges none = false
charges (some rate) = not (eqb_ℤ rate (pos 0))

abbrev pub zero_rate : Option ℤ → ℤ
zero_rate none = pos 0
zero_rate (some rate) = rate

-- `if carrier and carrier.cost_per_kg`
abbrev pub carrier_component : ℤ → Option Carrier → List CostComponent
carrier_component weight none = []
carrier_component weight (some c) =
    if charges c.cost_per_kg
    then component Category.carrier_rate (times_decimal (zero_rate c.cost_per_kg) weight) (pos 1)
      ∷ []
    else []

abbrev pub carrier_of : Option ℕ → Session → Option Carrier
carrier_of none s = none
carrier_of (some id) s = get (λ (c : Carrier). c.id) id s.carriers

unfoldable pub analyze_shipment_cost : ℕ → Db CostBreakdown
analyze_shipment_cost shipment = do
  x ← get_shipment shipment
  carrier ← gets (carrier_of x.carrier_id)
  let weight = truthy_or x.total_weight_kg (pos 100_000)
  pure (record {
    reference_id = shipment;
    components =
        component Category.weight_based (times 25_000 weight) (pos 1)
          ∷ carrier_component weight carrier
        ++ component Category.handling (pos 500_000_000) (pos 1) ∷ [];
  })

abbrev pub lower_cost : String × ℤ → String × ℤ → Bool
lower_cost a b = ltb_ℤ a.1 b.1

-- Of each active carrier, the cheapest first.
unfoldable pub compare_carrier_costs : ℕ → Db (List (String × ℤ))
compare_carrier_costs shipment = do
  x ← get_shipment shipment
  carriers ← gets list_active_carriers
  let weight = truthy_or x.total_weight_kg (pos 100_000)
  pure
      (sorted lower_cost (map (λ (c : Carrier). (c.carrier_code, estimate_cost c weight)) carriers))
