-- ===== src/Inventory/Allocation/Loop.antt =====
-- The induction rule of the loop of `AllocationEngine.allocate` (domain/inventory/allocation.py).
use mathlib.Core.Path.{subst₂}
use supply_chain_execution.Common.{
  Bool-cases, List, [], arith, false, inl, inr, not, refl, ℕ, ◌&&◌, ◌∷◌, ◌≡◌, ◌≢◌, ◌⊎◌,
}
use supply_chain_execution.Common.Int.{eqb_ℤ, leb_ℤ, ltb_ℤ, min_ℤ, pos, ℤ, ◌<ℤ◌, ◌≤ℤ◌}
use supply_chain_execution.Core.Effect.{ok, resume-eq-ok}
use supply_chain_execution.Core.Float.{FloatOps}
use supply_chain_execution.Inventory.Allocation.{
  AllocationRequest, AllocationResult, apply_allocation, create_reservation,
}
use supply_chain_execution.Inventory.Allocation.Engine.{
  Progress, allocate_from, conclude, record_allocation, take_from, try_warehouse,
}
use supply_chain_execution.Inventory.Allocation.Ranking.{WarehouseScore}
use supply_chain_execution.Persistence.Models.Inventory.{
  InventoryBalance, InventoryReservation, available,
}
use supply_chain_execution.Persistence.Session.{Env, Session}

-- What the loop's guards leave for a round: a positive number of units, at most what remains, and
-- all of it where the request may not be split.
pub record IsOffer (request : AllocationRequest) (q : ℤ) (p : Progress) : Type 0 where
  pub positive : pos 0 <ℤ q
  pub within : q ≤ℤ p.remaining
  pub whole : request.allow_split ≡ false → q ≡ p.remaining

-- A returned round has made the reservation, moved its balance, and recorded both.
pub take_from-eq-ok :
    (env : Env) (request : AllocationRequest) (w : ℕ) (q : ℤ) (p p' : Progress) (s s' : Session)
    → take_from env request w q p s ≡ (ok p', s')
    → (r : InventoryReservation) × (b : InventoryBalance) × (s₁ : Session) × (p'
        ≡ record_allocation w q r.id p)
      × (create_reservation env request w q s ≡ (ok r, s₁))
      × (apply_allocation w request.sku_id q s₁ ≡ (ok b, s'))
unfolding take_from
take_from-eq-ok env request w q p p' s s' e =
    let (r₁, s₁) = create_reservation env request w q s in
    let (reservation, e₁, e₂) = resume-eq-ok r₁ _ s₁ s' p' e in
    let (r₂, s₂) = apply_allocation w request.sku_id q s₁ in
    let (b, e₃, e₄) = resume-eq-ok r₂ _ s₂ s' p' e₂ in
    let same : s₂ ≡ s' = cc in (reservation, b, s₁, cc, λ i. (e₁ i, s₁), λ i. (e₃ i, same i))

offer :
    (request : AllocationRequest) (available : ℤ) (p : Progress) (q : ℤ)
    → q ≡ min_ℤ p.remaining available
    → pos 0 <ℤ p.remaining
    → leb_ℤ available (pos 0) ≡ false
    → (not request.allow_split && ltb_ℤ q p.remaining) ≡ false
    → IsOffer request q p
offer request available p q e more stocked taken = record {
  positive = ground arith;
  within = ground arith;
  whole = λ h. ground arith;
}

module _ {F : Type 0} (ops : FloatOps F) (env : Env) (request : AllocationRequest) where
  try_warehouse-cases :
      (score : WarehouseScore F) (p p' : Progress) (s s' : Session)
      → pos 0 <ℤ p.remaining
      → try_warehouse ops env request score p s ≡ (ok p', s')
      → ((p ≡ p') × (s ≡ s'))
        ⊎ ((q : ℤ) × IsOffer request q p
            × (take_from env request score.warehouse_id q p s ≡ (ok p', s')))
  unfolding try_warehouse
  try_warehouse-cases score p p' s s' more e = elim (Bool-cases (leb_ℤ score.available (pos 0))) [
    | inl empty ↦ inl (ground arith)
    | inr stocked ↦
        let q = min_ℤ p.remaining score.available in
        elim (Bool-cases (not request.allow_split && ltb_ℤ q p.remaining)) [
          | inl skipped ↦ inl (ground arith)
          | inr taken ↦
              inr (q, offer request score.available p q refl more stocked taken, ground arith)
        ]
  ]

  allocate_from-cases :
      (score : WarehouseScore F) (scores : List (WarehouseScore F)) (p p' : Progress)
      (s s' : Session)
      → allocate_from ops env request (score ∷ scores) p s ≡ (ok p', s')
      → ((p ≡ p') × (s ≡ s'))
        ⊎ ((p₁ : Progress) × (s₁ : Session) × (pos 0 <ℤ p.remaining)
            × (try_warehouse ops env request score p s ≡ (ok p₁, s₁))
            × (allocate_from ops env request scores p₁ s₁ ≡ (ok p', s')))
  unfolding allocate_from
  allocate_from-cases score scores p p' s s' e = elim (Bool-cases (leb_ℤ p.remaining (pos 0))) [
    | inl done ↦ inl (ground arith)
    | inr more ↦
        let (r, s₁) = try_warehouse ops env request score p s in
        let (p₁, e₁, e₂) =
          resume-eq-ok r (allocate_from ops env request scores) s₁ s' p' (ground arith) in
        inr (p₁, s₁, ground arith, λ i. (e₁ i, s₁), e₂)
  ]

  -- The rule: what every reserved offer keeps, a returned loop keeps.
  module _ (P : Progress → Session → Type 0)
      (keep : (w : ℕ) (q : ℤ) (p p' : Progress) (s s' : Session)
        → P p s
        → IsOffer request q p
        → take_from env request w q p s ≡ (ok p', s')
        → P p' s') where
    try_warehouse_inv :
        (score : WarehouseScore F) (p p' : Progress) (s s' : Session)
        → P p s
        → pos 0 <ℤ p.remaining
        → try_warehouse ops env request score p s ≡ (ok p', s')
        → P p' s'
    try_warehouse_inv score p p' s s' h more e = elim (try_warehouse-cases score p p' s s' more e) [
      | inl (same, unchanged) ↦ subst₂ P same unchanged h
      | inr (q, fits, taken) ↦ keep score.warehouse_id q p p' s s' h fits taken
    ]

    pub allocate_from_inv :
        (scores : List (WarehouseScore F)) (p p' : Progress) (s s' : Session)
        → P p s
        → allocate_from ops env request scores p s ≡ (ok p', s')
        → P p' s'
    unfolding allocate_from
    allocate_from_inv [] p p' s s' h e = subst₂ P (cc) (cc) h
    allocate_from_inv (score ∷ scores) p p' s s' h e =
        elim (allocate_from-cases score scores p p' s s' e) [
          | inl (same, unchanged) ↦ subst₂ P same unchanged h
          | inr (p₁, s₁, more, tried, rest) ↦
              allocate_from_inv scores p₁ p' s₁ s' (try_warehouse_inv score p p₁ s s₁ h more tried)
                rest
        ]

  -- The end of `allocate` writes nothing, and returns only where something was allocated.
  pub conclude-eq-ok :
      (scores : List (WarehouseScore F)) (p : Progress) (r : AllocationResult) (s s' : Session)
      → conclude ops env request scores p s ≡ (ok r, s')
      → (s ≡ s')
        × (p.result.total_allocated ≢ pos 0)
        × (r ≡ record (p.result) { backorder_quantity = p.remaining })
  conclude-eq-ok scores p r s s' e = elim (Bool-cases (eqb_ℤ p.result.total_allocated (pos 0))) [
    | inl nothing ↦ absurd (ground arith)
    | inr something ↦ (ground arith, ground arith, ground arith)
  ]

  pub conclude_state :
      (scores : List (WarehouseScore F)) (p : Progress) (s : Session)
      → (conclude ops env request scores p s).1 ≡ s
  conclude_state scores p s = elim (Bool-cases (eqb_ℤ p.result.total_allocated (pos 0))) [
    | inl nothing ↦ rw nothing
    | inr something ↦ rw something
  ]
