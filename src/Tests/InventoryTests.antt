-- ===== src/Tests/InventoryTests.antt =====
-- The inventory theorems on the sample network.
use mathlib.Core.Path.{subst}
use supply_chain_execution.Common.{
  All, Bool-cases, [], arith, inl, inr, insert_sorted, length, none, refl, some, sort_into, sorted,
  true, ℕ, ◌↔◌, ◌∷◌, ◌≡◌,
}
use supply_chain_execution.Common.Int.{int_laws, pos, ◌+ℤ◌, ◌-ℤ◌}
use supply_chain_execution.Core.Effect.{ok, raised}
use supply_chain_execution.Core.Exceptions.{insufficient_inventory}
use supply_chain_execution.Inventory.Allocation.{
  AllocationResult, apply_allocation, confirm_allocation, create_reservation,
  release_single_reservation, reserve_found,
}
use supply_chain_execution.Inventory.Allocation.Accounting.{IsAccounted, allocate-IsAccounted}
use supply_chain_execution.Inventory.Allocation.Backing.{allocate-IsBacked}
use supply_chain_execution.Inventory.Allocation.Confirm.{confirm_allocation-IsBacked}
use supply_chain_execution.Inventory.Allocation.Engine.{
  allocate, allocate_from, start, take_from, try_warehouse,
}
use supply_chain_execution.Inventory.Allocation.Freed.{
  on_hand_units, release_single_reservation-frees,
}
use supply_chain_execution.Inventory.Allocation.Orphan.{take_from-orphan}
use supply_chain_execution.Inventory.Allocation.Ranking.{
  composite_score, order_scores, rank_warehouses,
}
use supply_chain_execution.Inventory.Allocation.Release.{IsHeld, IsSettling}
use supply_chain_execution.Inventory.Allocation.Solvency.{IsSolvent, allocate-IsSolvent}
use supply_chain_execution.Inventory.Reconciliation.{reconcile_network, reconcile_warehouse}
use supply_chain_execution.Inventory.Reconciliation.Balance.{reconcile_network-balanced}
use supply_chain_execution.Inventory.Reservations.{ExpiryProcessResult, process_expired}
use supply_chain_execution.Inventory.Reservations.Lifecycle.{process_expired-returns}
use supply_chain_execution.Inventory.Stock.{
  AllObjects, IsBacked, active_total, allocated_total, reserved_total,
}
use supply_chain_execution.Persistence.Models.Inventory.{
  InventoryReservation, ReservationStatus, available,
}
use supply_chain_execution.Persistence.Queries.Inventory.{
  add_reservation, get_aggregated_available, get_balance, get_expired, is_balance_of, put_balance,
}
use supply_chain_execution.Persistence.Queries.Warehouse.{list_active}
use supply_chain_execution.Persistence.Session.{Session, flush_all}
use supply_chain_execution.Persistence.Table.{add, flush, put, select, select_columns}
use supply_chain_execution.Persistence.Table.Laws.{Holds}
use supply_chain_execution.Tests.Samples.{
  env, held_stock, ops, request, reservation, reserved_session, stock, stocked,
}

stocked-IsSolvent : IsSolvent stocked
stocked-IsSolvent = (omega int_laws, tt)

allocate-IsSolvent_example : IsSolvent (allocate ops env request stocked).1
allocate-IsSolvent_example = allocate-IsSolvent ops env request stocked stocked-IsSolvent

nothing_reserved : (w k : ℕ) → reserved_total w k stocked ≡ active_total w k stocked
nothing_reserved w k = elim (Bool-cases (is_balance_of w k none stock)) [
  | inl own ↦ rw own (omega int_laws)
  | inr other ↦ rw other (omega int_laws)
]

stocked-IsBacked : IsBacked stocked
stocked-IsBacked = record {
  balance_keys = (tt, tt);
  synced = ((refl, refl, refl), tt);
  backed = nothing_reserved;
}

abbrev allocated : AllocationResult
allocated = record {
  order_line_id = 4;
  allocations = (1, pos 5) ∷ [];
  total_allocated = pos 5;
  backorder_quantity = pos 0;
  reservation_ids = 1001 ∷ [];
}

allocates : allocate ops env request stocked ≡ (ok allocated, (allocate ops env request stocked).1)
unfolding allocate allocate_from try_warehouse take_from create_reservation apply_allocation
    reserve_found order_scores rank_warehouses get_balance select select_columns put put_balance
    add_reservation add flush flush_all available composite_score sorted sort_into insert_sorted
    list_active get_aggregated_available ◌+ℤ◌ ◌-ℤ◌
allocates = refl

allocate-IsBacked_example : IsBacked (allocate ops env request stocked).1
allocate-IsBacked_example =
    allocate-IsBacked ops env request allocated stocked (allocate ops env request stocked).1
      stocked-IsBacked allocates

allocate-IsAccounted_example : IsAccounted request allocated
allocate-IsAccounted_example =
    allocate-IsAccounted ops env request allocated stocked (allocate ops env request stocked).1
      allocates

five_reserved : (w k : ℕ) → reserved_total w k reserved_session ≡ active_total w k reserved_session
five_reserved w k = grind int_laws

reserved-IsBacked : IsBacked reserved_session
reserved-IsBacked = record {
  balance_keys = (tt, tt);
  synced = ((refl, refl, refl), tt);
  backed = five_reserved;
}

held_found : get_balance 1 7 none reserved_session ≡ (ok (some held_stock), reserved_session)
unfolding get_balance select
held_found = refl

reservation-IsHeld : IsHeld reservation reserved_session
reservation-IsHeld = record { balance = held_stock; found = held_found; within = omega arith }

reserved-IsSettling : IsSettling reserved_session
reserved-IsSettling = record { backed = reserved-IsBacked; reservation_keys = (tt, tt); holds = go }
  where
    go :
        (r : InventoryReservation)
        → Holds r reserved_session.reservations
        → r.status ≡ ReservationStatus.active
        → IsHeld r reserved_session
    go r (inl e) a = subst (λ x. IsHeld x reserved_session) e reservation-IsHeld
    go r (inr h) a = absurd h

release_single_reservation-frees_example :
    (reserved_total 1 7 (release_single_reservation reservation reserved_session).1 +ℤ pos 5
      ≡ reserved_total 1 7 reserved_session)
    × (active_total 1 7 (release_single_reservation reservation reserved_session).1 +ℤ pos 5
        ≡ active_total 1 7 reserved_session)
    × (allocated_total 1 7 (release_single_reservation reservation reserved_session).1
        ≡ allocated_total 1 7 reserved_session)
    × (on_hand_units (release_single_reservation reservation reserved_session).1
        ≡ on_hand_units reserved_session)
    × AllObjects
        (λ (x : InventoryReservation). x.id ≡ 30 → x.status ≡ ReservationStatus.released)
        (release_single_reservation reservation reserved_session).1.reservations
release_single_reservation-frees_example =
    release_single_reservation-frees reservation reserved_session reserved-IsSettling (inl refl)
      refl 1 7

confirm_allocation-IsBacked_example : IsBacked (confirm_allocation env 30 reserved_session).1
confirm_allocation-IsBacked_example =
    confirm_allocation-IsBacked env 30 reserved_session reserved-IsSettling

take_from-orphan_example :
    ((take_from env request 1 (pos 20) (start request) stocked).0
      ≡ raised (insufficient_inventory 7 (pos 20) (available stock) (some 1)))
    × (active_total 1 7 (take_from env request 1 (pos 20) (start request) stocked).1
        ≡ active_total 1 7 stocked +ℤ pos 20)
    × (reserved_total 1 7 (take_from env request 1 (pos 20) (start request) stocked).1
        ≡ reserved_total 1 7 stocked)
unfolding create_reservation add_reservation flush_all flush add get_balance select available ◌-ℤ◌
take_from-orphan_example =
    take_from-orphan env request 1 (pos 20) (start request) stock stocked refl (omega int_laws)

process_expired-returns_example :
    (acc : ExpiryProcessResult) × (s' : Session) × (process_expired env reserved_session
      ≡ (ok acc, s'))
    × (acc.count ≡ pos (length (get_expired (env.now 0) reserved_session)))
process_expired-returns_example = process_expired-returns env reserved_session

reconcile_network-balanced_example :
    ((reconcile_network (1 ∷ 2 ∷ []) reserved_session).is_balanced ≡ true)
    ↔ All (λ w. (reconcile_warehouse w reserved_session).is_balanced ≡ true) (1 ∷ 2 ∷ [])
reconcile_network-balanced_example = reconcile_network-balanced (1 ∷ 2 ∷ []) reserved_session
