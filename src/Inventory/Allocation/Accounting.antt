-- ===== src/Inventory/Allocation/Accounting.antt =====
-- What a returned `AllocationEngine.allocate` (domain/inventory/allocation.py) reports.
use supply_chain_execution.Common.{
  All, List, [], arith, false, inl, inr, length, length-append, refl, suc, zero, ℕ, ◌++◌, ◌∷◌, ◌≡◌,
  ◌≢◌, ◌⊎◌,
}
use supply_chain_execution.Common.Int.{
  int_laws, negsuc, pos, sum_of, sum_of-append, ℤ, ◌+ℤ◌, ◌<ℤ◌, ◌≤ℤ◌,
}
use supply_chain_execution.Core.Effect.{ok, resume-eq-ok}
use supply_chain_execution.Core.Float.{FloatOps}
use supply_chain_execution.Inventory.Allocation.{AllocationRequest, AllocationResult}
use supply_chain_execution.Inventory.Allocation.Engine.{
  Progress, allocate, allocate_from, conclude, record_allocation, start,
}
use supply_chain_execution.Inventory.Allocation.Loop.{
  IsOffer, allocate_from_inv, conclude-eq-ok, take_from-eq-ok,
}
use supply_chain_execution.Inventory.Allocation.Ranking.{order_scores, rank_warehouses}
use supply_chain_execution.Persistence.Session.{Env, Session}

abbrev pub units : ℕ × ℤ → ℤ
units a = a.1

-- The report of an allocation adds up.
pub record IsAccounted (request : AllocationRequest) (r : AllocationResult) : Type 0 where
  pub balance : r.total_allocated +ℤ r.backorder_quantity ≡ request.quantity
  pub sum : sum_of units r.allocations ≡ r.total_allocated
  pub some_units : pos 0 <ℤ r.total_allocated
  pub backorder : pos 0 ≤ℤ r.backorder_quantity
  pub positive : All (λ a. pos 0 <ℤ a.1) r.allocations
  pub reservations : length r.reservation_ids ≡ length r.allocations
  pub unsplit :
      request.allow_split ≡ false → (length r.allocations ≡ 1) × (r.backorder_quantity ≡ pos 0)

-- The loop's variables add up.
record IsCounted (request : AllocationRequest) (p : Progress) : Type 0 where
  balance : p.result.total_allocated +ℤ p.remaining ≡ request.quantity
  sum : sum_of units p.result.allocations ≡ p.result.total_allocated
  total : pos 0 ≤ℤ p.result.total_allocated
  started : (p.result.total_allocated ≡ pos 0) ⊎ (pos 0 ≤ℤ p.remaining)
  positive : All (λ a. pos 0 <ℤ a.1) p.result.allocations
  reservations : length p.result.reservation_ids ≡ length p.result.allocations
  unsplit :
      request.allow_split ≡ false
      → (length p.result.allocations ≡ 0) × (p.result.total_allocated ≡ pos 0)
        ⊎ (length p.result.allocations ≡ 1) × (p.remaining ≡ pos 0)

All-snoc :
    (a : ℕ × ℤ) (l : List (ℕ × ℤ))
    → All (λ x. pos 0 <ℤ x.1) l
    → pos 0 <ℤ a.1
    → All (λ x. pos 0 <ℤ x.1) (l ++ a ∷ [])
All-snoc a [] h q = (q, tt)
All-snoc a (x ∷ l) h q = (h.0, All-snoc a l h.1 q)

record_allocation-IsCounted :
    (request : AllocationRequest) (w : ℕ) (q : ℤ) (id : ℕ) (p : Progress)
    → IsCounted request p
    → IsOffer request q p
    → IsCounted request (record_allocation w q id p)
record_allocation-IsCounted request w q id p c o = record {
  balance = grind (int_laws, c.balance);
  sum = rw sum_of-append (grind (int_laws, c.sum));
  total = grind (int_laws, c.total, o.positive);
  started = inr (grind (int_laws, o.within));
  positive = All-snoc (w, q) p.result.allocations c.positive o.positive;
  reservations = simp length-append (ground (arith, c.reservations));
  unsplit = λ h. inr (first h, grind (int_laws, o.whole h));
}
  where
    first : request.allow_split ≡ false → length (p.result.allocations ++ (w, q) ∷ []) ≡ 1
    first h = elim (c.unsplit h) [
      | inl (none_yet, _) ↦ rw length-append (omega arith)
      | inr (_, nothing_left) ↦ absurd (grind (int_laws, o.positive, o.within, nothing_left))
    ]

start-IsCounted : (request : AllocationRequest) → IsCounted request (start request)
start-IsCounted request = record {
  balance = omega int_laws;
  sum = refl;
  total = omega arith;
  started = inl refl;
  positive = tt;
  reservations = refl;
  unsplit = λ h. inl (refl, refl);
}

positive_of_ne : (n : ℤ) → pos 0 ≤ℤ n → n ≢ pos 0 → pos 0 <ℤ n
positive_of_ne (pos zero) h ne = absurd (ne refl)
positive_of_ne (pos (suc n)) h ne = omega arith
positive_of_ne (negsuc n) h ne = absurd (omega arith)

conclude-IsAccounted :
    (request : AllocationRequest) (p : Progress)
    → IsCounted request p
    → p.result.total_allocated ≢ pos 0
    → IsAccounted request (record (p.result) { backorder_quantity = p.remaining })
conclude-IsAccounted request p c some_allocated = record {
  balance = c.balance;
  sum = c.sum;
  some_units = positive_of_ne p.result.total_allocated c.total some_allocated;
  backorder = elim c.started [ inl nothing ↦ absurd (some_allocated nothing) | inr h ↦ h ];
  positive = c.positive;
  reservations = c.reservations;
  unsplit = λ h. elim (c.unsplit h) [
    | inl (_, nothing) ↦ absurd (some_allocated nothing)
    | inr one ↦ one
  ];
}

module _ {F : Type 0} (ops : FloatOps F) (env : Env) (request : AllocationRequest) where
  -- When `allocate` returns, the units that it allocated and the backorder add up to the request;
  -- the listed allocations are positive and sum to the total, which is positive; each has its
  -- reservation; and a request that may not be split is met whole, from one warehouse.
  pub allocate-IsAccounted :
      (r : AllocationResult) (s s' : Session)
      → allocate ops env request s ≡ (ok r, s')
      → IsAccounted request r
  unfolding allocate
  allocate-IsAccounted r s s' e =
      let scores =
        order_scores ops request.preferred_warehouse_id (rank_warehouses ops request.sku_id s) in
      let (r₁, s₁) = allocate_from ops env request scores (start request) s in
      let (p, e₁, e₂) = resume-eq-ok r₁ (conclude ops env request scores) s₁ s' r e in
      let (_, some_allocated, result) = conclude-eq-ok ops env request scores p r s₁ s' e₂ in
      let counted =
        allocate_from_inv ops env request (λ p _. IsCounted request p)
          (λ w q p p' s s' c fits taken.
            let (r, _, _, recorded, _, _) = take_from-eq-ok env request w q p p' s s' taken in
            rw recorded (record_allocation-IsCounted request w q r.id p c fits))
          scores (start request) p s s₁ (start-IsCounted request) (λ i. (e₁ i, s₁)) in
      rw result (conclude-IsAccounted request p counted some_allocated)
