-- ===== src/Inventory/Allocation/Freed.antt =====
-- What `_release_single_reservation` (domain/inventory/allocation.py) frees.
use supply_chain_execution.Common.{Bool-cases, [], arith, inl, inr, refl, ℕ, ◌==◌, ◌∷◌, ◌≡◌}
use supply_chain_execution.Common.Int.{int_laws, ℤ, ◌+ℤ◌}
use supply_chain_execution.Inventory.Allocation.{release_counter, release_single_reservation}
use supply_chain_execution.Inventory.Allocation.Release.{
  IsSettling, ended_as, exact_release, release_state, reserved_column-settle, settled-totals,
}
use supply_chain_execution.Inventory.Allocation.Steps.{share}
use supply_chain_execution.Inventory.Stock.{
  AllObjects, active_total, allocated_total, get_balance-Holds, reserved_total,
}
use supply_chain_execution.Persistence.Models.Inventory.{
  InventoryBalance, InventoryReservation, ReservationStatus,
}
use supply_chain_execution.Persistence.Queries.Inventory.{balance_id, reservation_id}
use supply_chain_execution.Persistence.Session.{Session}
use supply_chain_execution.Persistence.Table.{Table, put}
use supply_chain_execution.Persistence.Table.Laws.{Holds, total, total-put}

abbrev pub on_hand_units : Session → ℤ
on_hand_units s = total (λ (b : InventoryBalance). b.on_hand) s.balances

moved_share : (x c y c' u : ℤ) → x +ℤ c ≡ y +ℤ c' → c' +ℤ u ≡ c → x +ℤ u ≡ y
moved_share x c y c' u e f = grind (int_laws, e, f)

same_share : (x y c : ℤ) → x +ℤ c ≡ y +ℤ c → x ≡ y
same_share x y c e = grind (int_laws, e)

-- The objects with the id of an object that was assigned to.
put-AllObjects :
    {R : Type 0} (id_of : R → ℕ) (P : R → Type 0) (r : R) (t : Table R)
    → P r
    → AllObjects (λ x. id_of x ≡ id_of r → P x) (put id_of r t)
unfolding put
put-AllObjects id_of P r [] p = tt
put-AllObjects id_of P r (row ∷ t) p = elim (Bool-cases (id_of row.current == id_of r)) [
  | inl hit ↦ rw hit (λ e. p, put-AllObjects id_of P r t p)
  | inr miss ↦ rw miss (λ e. absurd (ground (arith, miss, e)), put-AllObjects id_of P r t p)
]

module _ (r : InventoryReservation) (s : Session) (h : IsSettling s) (held : Holds r s.reservations)
    (active : r.status ≡ ReservationStatus.active) where
  -- In books where every active reservation has its balance and its units among the reserved ones,
  -- releasing an active reservation frees exactly its units: at its warehouse and SKU the reserved
  -- counters and the units of the active reservations fall by its quantity, and at no other; the
  -- allocated units of each warehouse and SKU, and all the units on hand, stay as they are; and the
  -- reservation with its id is released.
  pub release_single_reservation-frees :
      (w k : ℕ)
      → let s' = (release_single_reservation r s).1 in
        let units = share r.warehouse_id r.sku_id w k r.quantity in
        (reserved_total w k s' +ℤ units ≡ reserved_total w k s)
        × (active_total w k s' +ℤ units ≡ active_total w k s)
        × (allocated_total w k s' ≡ allocated_total w k s)
        × (on_hand_units s' ≡ on_hand_units s)
        × AllObjects
            (λ (x : InventoryReservation). x.id ≡ r.id → x.status ≡ ReservationStatus.released)
            s'.reservations
  release_single_reservation-frees w k =
      let books = h.backed in
      let own = h.holds r held active in
      let b = own.balance in
      let b' = release_counter ReservationStatus.active r.quantity b in
      let (held_b, key, _) =
        get_balance-Holds r.warehouse_id r.sku_id b s s books.synced own.found in
      let (reserved, allocated, live) =
        settled-totals r b s books.balance_keys books.synced h.reservation_keys held active
          own.found ReservationStatus.released b' w k refl refl in
      let own_share =
        reserved_column-settle r b b' w k key (refl, refl, refl, refl)
          (exact_release r b own.within) in
      let shelf =
        total-put balance_id (λ (x : InventoryBalance). x.on_hand) b b' s.balances
          books.balance_keys held_b refl in
      rw
        (release_state r b s books.balance_keys books.synced h.reservation_keys held active
          own.found)
        (
          moved_share _ _ _ _ _ reserved own_share,
          live,
          same_share _ _ _ allocated,
          same_share _ _ _ shelf,
          put-AllObjects reservation_id (λ x. x.status ≡ ReservationStatus.released)
              (ended_as ReservationStatus.released r) s.reservations refl,
        )
