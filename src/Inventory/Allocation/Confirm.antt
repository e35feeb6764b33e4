-- ===== src/Inventory/Allocation/Confirm.antt =====
-- `confirm_allocation` (domain/inventory/allocation.py) on every path.
use supply_chain_execution.Common.{Bool-cases, Option-cases, inl, inr, refl, true, ℕ, ◌+◌, ◌≡◌}
use supply_chain_execution.Common.Int.{ltb_ℤ}
use supply_chain_execution.Core.Effect.{raise, resume_inv}
use supply_chain_execution.Core.Exceptions.{reservation_expired}
use supply_chain_execution.Inventory.Allocation.{confirm_allocation, release_single_reservation}
use supply_chain_execution.Inventory.Allocation.Release.{
  IsHeld, IsSettling, confirm-IsBacked, found_balance, release-IsBacked,
}
use supply_chain_execution.Inventory.Stock.{IsBacked}
use supply_chain_execution.Persistence.Models.Inventory.{
  InventoryReservation, ReservationStatus, is_active_status,
}
use supply_chain_execution.Persistence.Queries.Inventory.{
  get_balance, get_reservation, reservation_id,
}
use supply_chain_execution.Persistence.Session.{Env, Session}
use supply_chain_execution.Persistence.Table.{get}
use supply_chain_execution.Persistence.Table.Laws.{get-Holds}

-- The books do not depend on how often the environment was asked.
abbrev drawn : Session → Session
drawn s = record s { draws = s.draws + 1 }

IsHeld-drawn : (r : InventoryReservation) (s : Session) → IsHeld r s → IsHeld r (drawn s)
unfolding get_balance
IsHeld-drawn r s h = record {
  balance = h.balance;
  found = rw (found_balance r.warehouse_id r.sku_id h.balance s h.found) refl;
  within = h.within;
}

IsBacked-drawn : (s : Session) → IsBacked s → IsBacked (drawn s)
IsBacked-drawn s h = record { balance_keys = h.balance_keys; synced = h.synced; backed = h.backed }

IsSettling-drawn : (s : Session) → IsSettling s → IsSettling (drawn s)
IsSettling-drawn s h = record {
  backed = IsBacked-drawn s h.backed;
  reservation_keys = h.reservation_keys;
  holds = λ r held active. IsHeld-drawn r s (h.holds r held active);
}

active_of_test :
    (status : ReservationStatus)
    → is_active_status status ≡ true
    → status ≡ ReservationStatus.active
active_of_test ReservationStatus.active e = refl
active_of_test ReservationStatus.confirmed e = cc
active_of_test ReservationStatus.released e = cc

-- In books where every active reservation has its balance and its units among the reserved ones,
-- `confirm_allocation` keeps the reserved counters and the active reservations of each warehouse
-- and SKU equal, on every path: the reservation is missing, or not active, or it has expired and is
-- released, or it is confirmed.
pub confirm_allocation-IsBacked :
    (env : Env) (id : ℕ) (s : Session) → IsSettling s → IsBacked (confirm_allocation env id s).1
unfolding confirm_allocation get_reservation
confirm_allocation-IsBacked env id s h =
    elim (Option-cases (get reservation_id id s.reservations)) [
      | inl e ↦ rw e h.backed
      | inr (r, e) ↦ elim (Bool-cases (is_active_status r.status)) [
        | inr ended ↦ rw (e, ended) h.backed
        | inl live ↦
            let held = (get-Holds reservation_id id r s.reservations e).0 in
            let active = active_of_test r.status live in
            let h₁ = IsSettling-drawn s h in
            elim (Bool-cases (ltb_ℤ r.expires_at (env.now s.draws))) [
              | inr in_time ↦ rw (e, live, in_time) (confirm-IsBacked r (drawn s) h₁ held active)
              | inl late ↦
                  rw (e, live, late)
                    (let (x, s₂) = release_single_reservation r (drawn s) in
                      let h₂ = release-IsBacked r (drawn s) h₁ held active in
                      resume_inv IsBacked x (λ _. raise reservation_expired) s₂ h₂ λ a e'. h₂)
            ]
      ]
    ]
