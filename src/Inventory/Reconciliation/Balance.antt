-- ===== src/Inventory/Reconciliation/Balance.antt =====
-- When the reports of domain/inventory/reconciliation.py are balanced.
use supply_chain_execution.Common.{
  All, Bool, Bool-cases, List, [], arith, false, if◌then◌else◌, inl, inr, length, length-append,
  not, refl, true, ℕ, ◌↔◌, ◌∷◌, ◌≡◌, ◌≢◌, ◌⊎◌,
}
use supply_chain_execution.Common.Int.{eqb_ℤ, ltb_ℤ, pos, sum_of, ℤ}
use supply_chain_execution.Inventory.Reconciliation.{
  ReconciliationDiscrepancy, ReconciliationReport, add_discrepancy, balances_of, check_available,
  check_reservations, check_skus, combine, reconcile_all, reconcile_network, reconcile_warehouse,
  reserved_of,
}
use supply_chain_execution.Persistence.Models.Inventory.{InventoryBalance, uncommitted}
use supply_chain_execution.Persistence.Session.{Session}

-- The flag and the list agree.
abbrev pub IsCoherent : ReconciliationReport → Type 0
IsCoherent r =
    ((r.is_balanced ≡ true) × (r.discrepancies ≡ []))
    ⊎ ((r.is_balanced ≡ false) × (length r.discrepancies ≢ 0))

add_discrepancy-IsCoherent :
    (d : ReconciliationDiscrepancy) (r : ReconciliationReport) → IsCoherent (add_discrepancy d r)
unfolding add_discrepancy
add_discrepancy-IsCoherent d r =
    inr (refl, λ e. let l = length-append r.discrepancies (d ∷ []) in omega (arith, l, e))

module _ (w k : ℕ) (held : ℤ) where
  check_available-IsCoherent :
      (bs : List InventoryBalance) (r : ReconciliationReport)
      → IsCoherent r
      → IsCoherent (check_available w k held bs r)
  unfolding check_available
  check_available-IsCoherent [] r h = h
  check_available-IsCoherent (b ∷ bs) r h =
      check_available-IsCoherent bs _ (elim (Bool-cases (ltb_ℤ (uncommitted b) (pos 0))) [
        | inl below ↦ rw below (add_discrepancy-IsCoherent _ r)
        | inr covered ↦ rw covered h
      ])

  check_reservations-IsCoherent :
      (bs : List InventoryBalance) (r : ReconciliationReport)
      → IsCoherent r
      → IsCoherent (check_reservations w k held bs r)
  unfolding check_reservations
  check_reservations-IsCoherent bs r h = elim (Bool-cases (eqb_ℤ held (sum_of reserved_of bs))) [
    | inl same ↦ rw same h
    | inr differ ↦ rw differ (add_discrepancy-IsCoherent _ r)
  ]

check_skus-IsCoherent :
    (w : ℕ) (held : ℕ → ℤ) (bs : List InventoryBalance) (ks : List ℕ) (r : ReconciliationReport)
    → IsCoherent r
    → IsCoherent (check_skus w held bs ks r)
unfolding check_skus
check_skus-IsCoherent w held bs [] r h = h
check_skus-IsCoherent w held bs (k ∷ ks) r h = check_skus-IsCoherent w held bs ks _ (
    check_available-IsCoherent w k (held k) (balances_of k bs) _
      (check_reservations-IsCoherent w k (held k) (balances_of k bs) r h))

-- The report of a warehouse is balanced exactly when it lists no discrepancy.
pub reconcile_warehouse-IsCoherent : (w : ℕ) (s : Session) → IsCoherent (reconcile_warehouse w s)
unfolding reconcile_warehouse
reconcile_warehouse-IsCoherent w s = check_skus-IsCoherent w _ _ _ _ (inl (refl, refl))

reconcile_all-balanced :
    (ws : List ℕ) (s : Session) (r : ReconciliationReport)
    → ((reconcile_all ws s r).is_balanced ≡ true)
      ↔ ((r.is_balanced ≡ true) × All (λ w. (reconcile_warehouse w s).is_balanced ≡ true) ws)
unfolding reconcile_all
reconcile_all-balanced [] s r = (λ e. (e, tt), λ h. h.0)
reconcile_all-balanced (w ∷ ws) s r =
    let (forth, back) = reconcile_all-balanced ws s (combine r (reconcile_warehouse w s)) in
    let flags = r.is_balanced in
    (
      λ e.
          let (both, rest) = forth e in
          let (one, own) = both_flags r.is_balanced (reconcile_warehouse w s).is_balanced both in
          (one, (own, rest)),
      λ h. back (rw (h.1.0) h.0, h.1.1),
    )
  where
    both_flags : (a b : Bool) → (if not b then false else a) ≡ true → (a ≡ true) × (b ≡ true)
    both_flags a b e = ground arith

-- A network is balanced exactly when each of its warehouses is.
pub reconcile_network-balanced :
    (ws : List ℕ) (s : Session)
    → ((reconcile_network ws s).is_balanced ≡ true)
      ↔ All (λ w. (reconcile_warehouse w s).is_balanced ≡ true) ws
unfolding reconcile_network
reconcile_network-balanced ws s =
    let (forth, back) = reconcile_all-balanced ws s _ in (λ e. (forth e).1, λ h. back (refl, h))
