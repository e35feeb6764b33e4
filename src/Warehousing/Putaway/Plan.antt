-- ===== src/Warehousing/Putaway/Plan.antt =====
-- What a putaway plan (domain/warehouse/putaway.py) does with the units that it is given.
use supply_chain_execution.Common.{
  Bool-cases, List, Option, [], ap, arith, false, inl, inr, none, refl, some, suc, true, zero, ◌∷◌,
  ◌≡◌, ◌⊎◌,
}
use supply_chain_execution.Common.Int.{
  int_laws, leb_ℤ, max_ℤ, min_ℤ, negsuc, pos, sum_of, ℤ, ◌+ℤ◌, ◌-ℤ◌, ◌<ℤ◌, ◌≤ℤ◌,
}
use supply_chain_execution.Persistence.Models.Warehouse.{WarehouseLocation}
use supply_chain_execution.Persistence.Session.{truthy_or}
use supply_chain_execution.Transportation.Scheduling.Booking.{room}
use supply_chain_execution.Warehousing.Putaway.{
  PutawayRecommendation, assign_locations, capacity_of,
}

-- The units that a putaway plan assigns.
abbrev pub assigned : List PutawayRecommendation → ℤ
assigned rs = sum_of (λ (r : PutawayRecommendation). r.quantity) rs

-- The units that a location takes: what it says, or 100 where it says nothing or zero.
abbrev pub limit_of : Option ℤ → ℤ
limit_of none = pos 100
limit_of (some (pos zero)) = pos 100
limit_of (some (pos (suc n))) = pos (suc n)
limit_of (some (negsuc n)) = negsuc n

-- A recommendation for a location: at least one unit, within what the location takes.
pub record IsFor (l : WarehouseLocation) (r : PutawayRecommendation) : Type 0 where
  pub target : r.target_location_id ≡ l.id
  pub positive : pos 0 <ℤ r.quantity
  pub within : r.quantity ≤ℤ limit_of l.capacity_units
  pub rest : r.capacity_remaining ≡ limit_of l.capacity_units -ℤ r.quantity

-- Recommendations for some of the locations, in their order, at most one for each.
pub data Fits : List WarehouseLocation → List PutawayRecommendation → Type 0 where
  no_more : (ls : List WarehouseLocation) → Fits ls []
  skip :
      (l : WarehouseLocation) (ls : List WarehouseLocation) (rs : List PutawayRecommendation)
      → Fits ls rs
      → Fits (l ∷ ls) rs
  use_location :
      (l : WarehouseLocation) (ls : List WarehouseLocation) (r : PutawayRecommendation)
      (rs : List PutawayRecommendation)
      → IsFor l r
      → Fits ls rs
      → Fits (l ∷ ls) (r ∷ rs)

capacity_of-limit_of : (l : WarehouseLocation) → capacity_of l ≡ limit_of l.capacity_units
capacity_of-limit_of l = go l.capacity_units
  where
    go : (o : Option ℤ) → truthy_or o (pos 100) ≡ limit_of o
    go none = refl
    go (some (pos zero)) = refl
    go (some (pos (suc n))) = ground arith
    go (some (negsuc n)) = ground arith

-- What all locations take.
abbrev pub total_limit : List WarehouseLocation → ℤ
total_limit ls = sum_of (λ (l : WarehouseLocation). max_ℤ (pos 0) (limit_of l.capacity_units)) ls

total_limit-floor : (ls : List WarehouseLocation) → pos 0 ≤ℤ total_limit ls
total_limit-floor [] = omega arith
total_limit-floor (l ∷ ls) = grind (int_laws, total_limit-floor ls)

regroup : (q a r n : ℤ) → a +ℤ r ≡ n -ℤ q → q +ℤ a +ℤ r ≡ n
regroup q a r n e = grind (int_laws, e)

-- The two ways in which a plan ends: nothing remains, or every location is full.
abbrev pub IsSpent : List WarehouseLocation → List PutawayRecommendation × ℤ → Type 0
IsSpent ls plan = (plan.1 ≤ℤ pos 0) ⊎ (assigned plan.0 ≡ total_limit ls)

skip-IsSpent :
    (l : WarehouseLocation) (ls : List WarehouseLocation) (plan : List PutawayRecommendation × ℤ)
    → limit_of l.capacity_units ≤ℤ pos 0
    → IsSpent ls plan
    → IsSpent (l ∷ ls) plan
skip-IsSpent l ls plan none_here (inl done) = inl done
skip-IsSpent l ls plan none_here (inr full) = inr (grind (int_laws, none_here, full))

-- The arithmetic of one round, for the units that remain, and what the location takes.
module _ (n a b : ℤ) (e : a ≡ b) where
  no_room : leb_ℤ n (pos 0) ≡ false → leb_ℤ (min_ℤ n a) (pos 0) ≡ true → b ≤ℤ pos 0
  no_room some_left full = rw (← e) (grind int_laws)

  at_most : min_ℤ n a ≤ℤ b
  at_most = rw (← e) (grind int_laws)

  filled :
      (x rest limits : ℤ)
      → x +ℤ rest ≡ n -ℤ min_ℤ n a
      → pos 0 ≤ℤ limits
      → leb_ℤ (min_ℤ n a) (pos 0) ≡ false
      → (rest ≤ℤ pos 0) ⊎ (x ≡ limits)
      → (rest ≤ℤ pos 0) ⊎ (min_ℤ n a +ℤ x ≡ max_ℤ (pos 0) b +ℤ limits)
  filled x rest limits sum floor room (inl done) = inl done
  filled x rest limits sum floor room (inr full) = elim (Bool-cases (leb_ℤ rest (pos 0))) [
    | inl done ↦ inl (grind int_laws)
    | inr more ↦ inr (rw (← e) (grind (int_laws, sum, full)))
  ]

-- The plan of `plan_putaway` over any locations loses no unit: what it assigns and what remains are
-- together the quantity it was given. Each recommendation is for another location, in their order,
-- and assigns at least one unit, within the location's capacity, which counts as 100 where it is
-- missing or zero. Either nothing remains, or all locations are full.
pub assign_locations-total :
    (ls : List WarehouseLocation) (quantity : ℤ)
    → (assigned (assign_locations ls quantity).0 +ℤ (assign_locations ls quantity).1 ≡ quantity)
      × Fits ls (assign_locations ls quantity).0
      × IsSpent ls (assign_locations ls quantity)
unfolding assign_locations
assign_locations-total [] quantity = (grind int_laws, no_more [], inr refl)
assign_locations-total (l ∷ ls) quantity =
    let c = capacity_of-limit_of l in
    let a = capacity_of l in
    let q = min_ℤ quantity a in
    elim (Bool-cases (leb_ℤ quantity (pos 0))) [
      | inl none_left ↦ rw none_left (grind int_laws, no_more (l ∷ ls), inl (grind int_laws))
      | inr some_left ↦ elim (Bool-cases (leb_ℤ q (pos 0))) [
        | inl full ↦
            let (sum, fits, spent) = assign_locations-total ls quantity in
            rw (some_left, full)
              (
                sum,
                skip l ls _ fits,
                skip-IsSpent l ls _ (no_room quantity a _ c some_left full) spent,
              )
        | inr room ↦
            let (sum, fits, spent) = assign_locations-total ls (quantity -ℤ q) in
            rw (some_left, room)
              (
                regroup q _ _ quantity sum,
                use_location l ls _ _
                    (record {
                      target = refl;
                      positive = grind (int_laws, room);
                      within = at_most quantity a _ c;
                      rest = ap (λ n. n -ℤ q) c;
                    })
                    fits,
                filled quantity a _ c _ _ _ sum (total_limit-floor ls) room spent,
              )
      ]
    ]
