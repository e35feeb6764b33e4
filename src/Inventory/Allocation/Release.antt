-- ===== src/Inventory/Allocation/Release.antt =====
-- The end of a reservation: the assignments of `confirm_allocation` and
-- `_release_single_reservation` (domain/inventory/allocation.py).
use supply_chain_execution.Common.{Option, ap, false, none, refl, some, true, ℕ, ◌≡◌}
use supply_chain_execution.Common.Int.{int_laws, max_ℤ, pos, ℤ, ◌+ℤ◌, ◌-ℤ◌, ◌≤ℤ◌}
use supply_chain_execution.Core.Effect.{Result, ok}
use supply_chain_execution.Core.Exceptions.{multiple_results_found}
use supply_chain_execution.Fulfillment.Shipments.{moved}
use supply_chain_execution.Inventory.Allocation.{
  confirm_counters, confirm_now, release_counter, release_single_reservation,
}
use supply_chain_execution.Inventory.Allocation.Steps.{share}
use supply_chain_execution.Inventory.Stock.{
  IsBacked, IsSynced, IsSynced-put, SameIdentity, active_column, active_total, allocated_column,
  allocated_total, get_balance-Holds, or_raise_found, reserved_column, reserved_total,
}
use supply_chain_execution.Persistence.Models.Inventory.{
  InventoryBalance, InventoryReservation, ReservationStatus, is_active_status,
}
use supply_chain_execution.Persistence.Queries.Inventory.{
  balance_id, get_balance, is_balance_of, put_balance, put_reservation, reservation_id,
}
use supply_chain_execution.Persistence.Session.{Session}
use supply_chain_execution.Persistence.Table.{put, scalar_one_or_none, select}
use supply_chain_execution.Persistence.Table.Laws.{HasKeys, HasKeys-put, Holds, total, total-put}

abbrev pub ended_as : ReservationStatus → InventoryReservation → InventoryReservation
ended_as status r = record r { status = status }

-- The session after a reservation took a new status and its balance new counters.
abbrev pub settled : InventoryReservation → InventoryBalance → Session → Session
settled r b s = record s {
  reservations = put reservation_id r s.reservations;
  balances = put balance_id b s.balances;
}

pub found_balance :
    (w k : ℕ) (b : InventoryBalance) (s : Session)
    → get_balance w k none s ≡ (ok (some b), s)
    → scalar_one_or_none (select (is_balance_of w k none) s.balances) ≡ some (some b)
unfolding get_balance
found_balance w k b s e =
    or_raise_found (scalar_one_or_none (select (is_balance_of w k none) s.balances))
      multiple_results_found s (some b)
      (ap (λ (x : Result (Option InventoryBalance) × Session). x.0) e)

pub reserved_column-settle :
    (r : InventoryReservation) (b b' : InventoryBalance) (w k : ℕ)
    → is_balance_of r.warehouse_id r.sku_id none b ≡ true
    → SameIdentity b b'
    → b'.reserved ≡ b.reserved -ℤ r.quantity
    → reserved_column w k b' +ℤ share r.warehouse_id r.sku_id w k r.quantity ≡ reserved_column w k b
reserved_column-settle r b b' w k key same moved = grind int_laws

-- Two totals that agreed and lost the same share agree again.
moves_agree :
    (x a r t c c' share : ℤ) → x +ℤ c ≡ r +ℤ c' → c' +ℤ share ≡ c → a +ℤ share ≡ t → r ≡ t → x ≡ a
moves_agree x a r t c c' share e₁ e₂ e₃ e₄ = grind (int_laws, e₁, e₂, e₃, e₄)

pub exact_release :
    (r : InventoryReservation) (b : InventoryBalance)
    → r.quantity ≤ℤ b.reserved
    → max_ℤ (pos 0) (b.reserved -ℤ r.quantity) ≡ b.reserved -ℤ r.quantity
exact_release r b within = grind int_laws

module _ (r : InventoryReservation) (b : InventoryBalance) (s : Session)
    (keys : HasKeys balance_id s.balances) (synced : IsSynced s.balances)
    (reservation_keys : HasKeys reservation_id s.reservations) (held : Holds r s.reservations)
    (active : r.status ≡ ReservationStatus.active)
    (found : get_balance r.warehouse_id r.sku_id none s ≡ (ok (some b), s)) where
  confirm_now_state :
      confirm_now r s
      ≡ (ok tt, settled (ended_as ReservationStatus.confirmed r) (confirm_counters r.quantity b) s)
  unfolding confirm_now get_balance put_balance put_reservation
  confirm_now_state = rw (found_balance r.warehouse_id r.sku_id b s found)

  pub release_state : release_single_reservation r s ≡ (
    ok tt,
    settled
        (ended_as ReservationStatus.released r)
        (release_counter ReservationStatus.active r.quantity b)
        s,
  )
  unfolding release_single_reservation get_balance put_balance put_reservation
  release_state = rw (found_balance r.warehouse_id r.sku_id b s found, active)

  pub settled-totals :
      (status : ReservationStatus) (b' : InventoryBalance) (w k : ℕ)
      → is_active_status status ≡ false
      → b'.id ≡ b.id
      → (total (reserved_column w k) (settled (ended_as status r) b' s).balances
            +ℤ reserved_column w k b
          ≡ reserved_total w k s +ℤ reserved_column w k b')
        × (total (allocated_column w k) (settled (ended_as status r) b' s).balances
              +ℤ allocated_column w k b
            ≡ allocated_total w k s +ℤ allocated_column w k b')
        × (active_total w k (settled (ended_as status r) b' s)
              +ℤ share r.warehouse_id r.sku_id w k r.quantity
            ≡ active_total w k s)
  settled-totals status b' w k ended same =
      let (held_b, key, _) = get_balance-Holds r.warehouse_id r.sku_id b s s synced found in
      (
        total-put balance_id (reserved_column w k) b b' s.balances keys held_b same,
        total-put balance_id (allocated_column w k) b b' s.balances keys held_b same,
        grind (
          int_laws,
          total-put reservation_id (active_column w k) r (ended_as status r) s.reservations
              reservation_keys held refl,
        ),
      )

  IsBacked-settled :
      (status : ReservationStatus) (b' : InventoryBalance)
      → IsBacked s
      → is_active_status status ≡ false
      → SameIdentity b b'
      → b'.reserved ≡ b.reserved -ℤ r.quantity
      → IsBacked (settled (ended_as status r) b' s)
  IsBacked-settled status b' h ended same moved =
      let (held_b, key, _) = get_balance-Holds r.warehouse_id r.sku_id b s s synced found in
      record {
        balance_keys = HasKeys-put balance_id b' s.balances keys;
        synced = IsSynced-put b b' s.balances keys held_b same synced;
        backed = λ w k.
            let (reserved, _, live) = settled-totals status b' w k ended same.0 in
            moves_agree _ _ _ _ _ _ (share r.warehouse_id r.sku_id w k r.quantity) reserved
              (reserved_column-settle r b b' w k key same moved) live (h.backed w k);
      }

-- An active reservation with its balance: the balance that confirmation and release will find,
-- with the reservation's units among its reserved ones.
pub record IsHeld (r : InventoryReservation) (s : Session) : Type 0 where
  pub balance : InventoryBalance
  pub found : get_balance r.warehouse_id r.sku_id none s ≡ (ok (some balance), s)
  pub within : r.quantity ≤ℤ balance.reserved

-- The books that confirmation and release rely on.
pub record IsSettling (s : Session) : Type 0 where
  pub backed : IsBacked s
  pub reservation_keys : HasKeys reservation_id s.reservations
  pub holds :
      (r : InventoryReservation)
      → Holds r s.reservations
      → r.status ≡ ReservationStatus.active
      → IsHeld r s

module _ (r : InventoryReservation) (s : Session) (h : IsSettling s) (held : Holds r s.reservations)
    (active : r.status ≡ ReservationStatus.active) where
  -- A release keeps the reserved counters and the active reservations equal.
  pub release-IsBacked : IsBacked (release_single_reservation r s).1
  release-IsBacked =
      let open_books = h.backed in
      let own = h.holds r held active in
      let b = own.balance in
      rw
        (release_state r b s open_books.balance_keys open_books.synced h.reservation_keys held
          active own.found)
        (IsBacked-settled r b s open_books.balance_keys open_books.synced h.reservation_keys held
          active own.found ReservationStatus.released
          (release_counter ReservationStatus.active r.quantity b) open_books refl
          (refl, refl, refl, refl) (exact_release r b own.within))

  -- In books where every active reservation has its balance and its units among the reserved ones,
  -- confirming an active reservation moves its units out of the reserved counter: the reserved
  -- counters and the active reservations of each warehouse and SKU stay equal.
  pub confirm-IsBacked : IsBacked (confirm_now r s).1
  confirm-IsBacked =
      let open_books = h.backed in
      let own = h.holds r held active in
      let b = own.balance in
      rw
        (confirm_now_state r b s open_books.balance_keys open_books.synced h.reservation_keys held
          active own.found)
        (IsBacked-settled r b s open_books.balance_keys open_books.synced h.reservation_keys held
          active own.found ReservationStatus.confirmed (confirm_counters r.quantity b) open_books
          refl (refl, refl, refl, refl) refl)
