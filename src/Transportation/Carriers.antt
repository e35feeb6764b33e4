-- ===== src/Transportation/Carriers.antt =====
-- src/nexusops/domain/transportation/carrier_assignment.py. A weight and a rate have four decimal
-- places, and their product eight; scores are floats, behind the interface of Core/Float, with
-- what else the code does with floats in `Floats`.
use supply_chain_execution.Common.{
  Bool, List, Option, String, [], false, if◌then◌else◌, none, not, some, sorted, suc, ℕ, ◌&&◌, ◌*◌,
  ◌∷◌,
}
use supply_chain_execution.Common.Int.{eqb_ℤ, ltb_ℤ, max_ℤ, negsuc, pos, ℤ, ◌+ℤ◌, ◌-ℤ◌}
use supply_chain_execution.Core.Effect.{gets, pure, raise, ◌>>=◌, ◌>>◌}
use supply_chain_execution.Core.Exceptions.{value_error}
use supply_chain_execution.Core.Float.{FloatOps}
use supply_chain_execution.Persistence.Models.Transport.{Carrier, Shipment}
use supply_chain_execution.Persistence.Queries.Transport.{
  get_shipment, list_active_carriers, put_shipment,
}
use supply_chain_execution.Persistence.Session.{Db, truthy_or}

-- `float(n / 10 ** d)`, `float(a / b)` of two decimals, subtraction, and `int(x)`.
pub record Floats (F : Type 0) : Type 0 where
  pub ops : FloatOps F
  pub of_decimal : ℤ → ℕ → F
  pub quotient : ℤ → ℤ → F
  pub sub : F → F → F
  pub truncate : F → ℤ

pub data Reason : Type 0 where
  fallback optimization_score : Reason

pub record CarrierAssignment (F : Type 0) : Type 0 where
  pub shipment_id : ℕ
  pub carrier_id : ℕ
  pub carrier_code : String
  pub estimated_cost : ℤ
  pub estimated_transit_days : ℤ
  pub score : F
  pub reason : Reason

-- A carrier that can take the weight, with its score, cost and days.
pub record Scored (F : Type 0) : Type 0 where
  pub carrier : Carrier
  pub score : F
  pub cost : ℤ
  pub transit_days : ℤ

-- `carrier.max_weight_kg and weight > carrier.max_weight_kg`
abbrev pub too_heavy : ℤ → Carrier → Bool
too_heavy weight c = elim c.max_weight_kg [
  | none ↦ false
  | some limit ↦ not (eqb_ℤ limit (pos 0)) && ltb_ℤ limit weight
]

-- The product of two decimals.
unfoldable pub times_decimal : ℤ → ℤ → ℤ
times_decimal (pos m) (pos n) = pos (m * n)
times_decimal (pos m) (negsuc n) = pos 0 -ℤ pos (m * suc n)
times_decimal (negsuc m) (pos n) = pos 0 -ℤ pos (suc m * n)
times_decimal (negsuc m) (negsuc n) = pos (suc m * suc n)

-- `_estimate_cost`, in hundred-millionths: a rate of 1.00 where there is none, and 15.00.
unfoldable pub estimate_cost : Carrier → ℤ → ℤ
estimate_cost c weight =
    times_decimal (truthy_or c.cost_per_kg (pos 10_000)) weight +ℤ pos 1_500_000_000

module _ {F : Type 0} (floats : Floats F) where
  open floats use {ops, of_decimal, quotient, sub, truncate}
  open ops use {decimal, of_int, add, mul, div, less}

  -- `float(carrier.on_time_rate or default)`
  abbrev pub rate_or : F → Option ℤ → F
  rate_or default none = default
  rate_or default (some r) = if eqb_ℤ r (pos 0) then default else of_decimal r 4

  abbrev pub min_float : F → F → F
  min_float a b = if less b a then b else a

  unfoldable pub estimate_transit : Carrier → ℤ
  estimate_transit c =
      max_ℤ (pos 1) (truncate (div (of_int (pos 3)) (rate_or (decimal 85 2) c.on_time_rate)))

  -- `_score_carrier`; 500 and 1000 in the units of a cost and of a weight.
  unfoldable pub score_carrier : Carrier → ℤ → ℤ → F
  score_carrier c cost weight =
      let cost_score =
        sub (decimal 10 1) (min_float (quotient cost (pos 50_000_000_000)) (decimal 10 1)) in
      let perf_score = rate_or (decimal 8 1) c.on_time_rate in
      let capacity_score =
        min_float (quotient weight (truthy_or c.max_weight_kg (pos 10_000_000))) (decimal 10 1) in
      add (add (mul cost_score (decimal 4 1)) (mul perf_score (decimal 35 2)))
        (mul (sub (of_int (pos 1)) capacity_score) (decimal 25 2))

  abbrev pub scored_carrier : ℤ → Carrier → Scored F
  scored_carrier weight c = record {
    carrier = c;
    score = score_carrier c (estimate_cost c weight) weight;
    cost = estimate_cost c weight;
    transit_days = estimate_transit c;
  }

  unfoldable pub score_carriers : ℤ → List Carrier → List (Scored F)
  score_carriers weight [] = []
  score_carriers weight (c ∷ cs) =
      if too_heavy weight c
      then score_carriers weight cs
      else scored_carrier weight c ∷ score_carriers weight cs

  -- `scored.sort(key=..., reverse=True)` keeps the order of equal scores.
  abbrev pub higher : Scored F → Scored F → Bool
  higher a b = less b.score a.score

  abbrev pub assignment : ℕ → Carrier → ℤ → ℤ → F → Reason → CarrierAssignment F
  assignment shipment c cost days score reason = record {
    shipment_id = shipment;
    carrier_id = c.id;
    carrier_code = c.carrier_code;
    estimated_cost = cost;
    estimated_transit_days = days;
    score = score;
    reason = reason;
  }

  -- With no carrier in reach of the weight, the first is named, and the shipment is left alone.
  unfoldable pub assign_best : Shipment → ℤ → Carrier → List (Scored F) → Db (CarrierAssignment F)
  assign_best x weight first [] = pure (
      assignment x.id first (estimate_cost first weight) (estimate_transit first) (decimal 5 1)
        fallback)
  assign_best x weight first (best ∷ rest) = do
    put_shipment (record x { carrier_id = some best.carrier.id })
    pure (assignment x.id best.carrier best.cost best.transit_days best.score optimization_score)

  unfoldable pub assign_among : Shipment → ℤ → List Carrier → Db (CarrierAssignment F)
  assign_among x weight [] = raise value_error
  assign_among x weight (c ∷ cs) =
      assign_best x weight c (sorted higher (score_carriers weight (c ∷ cs)))

  unfoldable pub assign_carrier : ℕ → Db (CarrierAssignment F)
  assign_carrier shipment = do
    x ← get_shipment shipment
    carriers ← gets list_active_carriers
    assign_among x (truthy_or x.total_weight_kg (pos 100_000)) carriers
