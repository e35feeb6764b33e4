-- ===== src/Inventory/Reservations.antt =====
-- src/nexusops/domain/inventory/reservation_manager.py
pub mod Lifecycle
use Prim.Native.Nat.{◌/◌}
use supply_chain_execution.Common.{
  Bool, List, [], false, filter, find?, if◌then◌else◌, map, not, suc, true, ℕ, ◌&&◌, ◌*◌, ◌++◌,
  ◌==◌, ◌∷◌,
}
use supply_chain_execution.Common.Int.{leb_ℤ, ltb_ℤ, max_ℤ, min_ℤ, negsuc, pos, ℤ, ◌+ℤ◌, ◌-ℤ◌}
use supply_chain_execution.Core.Effect.{
  catch, for_each, gets, or_raise, pure, raise, raise_if, ◌>>=◌, ◌>>◌,
}
use supply_chain_execution.Core.Exceptions.{Error, reservation_expired, stop_iteration}
use supply_chain_execution.Inventory.Allocation.{confirm_allocation, release_single_reservation}
use supply_chain_execution.Inventory.Allocation.Engine.{start}
use supply_chain_execution.Persistence.Models.Inventory.{
  InventoryReservation, ReservationStatus, is_active_status,
}
use supply_chain_execution.Persistence.Queries.Inventory.{
  get_active_for_order, get_expired, get_reservation, put_reservation, sum_reserved_quantity,
}
use supply_chain_execution.Persistence.Session.{Db, Env, Session, draw_now, minute}
use supply_chain_execution.Persistence.Table.{select_columns}

pub record ReservationSummary : Type 0 where
  pub reservation_id : ℕ
  pub order_id : ℕ
  pub warehouse_id : ℕ
  pub sku_id : ℕ
  pub quantity : ℤ
  pub status : ReservationStatus
  pub expires_at : ℤ
  pub seconds_remaining : ℤ
  pub is_expired : Bool

-- `int(delta.total_seconds())` of a time that is not negative; `max(0, …)` hides the others.
abbrev pub whole_seconds : ℤ → ℤ
whole_seconds (pos n) = pos (n / 1_000_000)
whole_seconds (negsuc n) = pos 0

unfoldable pub summarize : ℤ → InventoryReservation → ReservationSummary
summarize now r = record {
  reservation_id = r.id;
  order_id = r.order_id;
  warehouse_id = r.warehouse_id;
  sku_id = r.sku_id;
  quantity = r.quantity;
  status = r.status;
  expires_at = r.expires_at;
  seconds_remaining = max_ℤ (pos 0) (whole_seconds (r.expires_at -ℤ now));
  is_expired = ltb_ℤ r.expires_at now;
}

unfoldable pub get_order_reservations : Env → ℕ → Db (List ReservationSummary)
get_order_reservations env order = do
  reservations ← gets (get_active_for_order order)
  now ← draw_now env
  pure (map (summarize now) reservations)

abbrev pub max_extension_minutes : ℤ
max_extension_minutes = pos 60

-- `timedelta(minutes=n)` for an `n` of either sign.
abbrev pub minutes : ℤ → ℤ
minutes (pos n) = pos (n * minute)
minutes (negsuc n) = pos 0 -ℤ pos (suc n * minute)

abbrev pub extended : ℤ → InventoryReservation → InventoryReservation
extended additional r = record r {
  expires_at = r.expires_at +ℤ minutes (min_ℤ additional max_extension_minutes);
}

unfoldable pub extend_reservation : Env → ℕ → ℤ → Db ReservationSummary
extend_reservation env id additional = do
  r ← get_reservation id
  raise_if (not (is_active_status r.status)) reservation_expired
  put_reservation (extended additional r)
  summaries ← get_order_reservations env r.order_id
  or_raise (find? (λ (x : ReservationSummary). x.reservation_id == id) summaries) stop_iteration

pub record ExpiryProcessResult : Type 0 where
  pub count : ℤ
  pub units : ℤ
  pub errors : List ℕ

-- The round of one expired reservation; an error is noted by the reservation's id.
unfoldable pub expire_one : InventoryReservation → ExpiryProcessResult → Db ExpiryProcessResult
expire_one r acc =
    catch
      (release_single_reservation r
        >> pure (record {
          count = acc.count +ℤ pos 1;
          units = acc.units +ℤ r.quantity;
          errors = acc.errors;
        }))
      λ e.
        pure (record {
          count = acc.count +ℤ pos 1;
          units = acc.units;
          errors = acc.errors ++ r.id ∷ [];
        })

unfoldable pub process_expired : Env → Db ExpiryProcessResult
process_expired env = do
  now ← draw_now env
  expired ← gets (get_expired now)
  for_each expire_one expired (record { count = pos 0; units = pos 0; errors = [] })

abbrev pub is_expired_error : Error → Bool
is_expired_error e = elim e [ reservation_expired ↦ true | _ ↦ false ]

-- `except ReservationExpiredError`: other errors go on.
unfoldable pub confirm_one : Env → InventoryReservation → ℤ → Db ℤ
confirm_one env r count =
    catch (confirm_allocation env r.id >> pure (count +ℤ pos 1))
      λ e. if is_expired_error e then pure count else raise e

unfoldable pub confirm_all_for_order : Env → ℕ → Db ℤ
confirm_all_for_order env order = do
  reservations ← gets (get_active_for_order order)
  for_each (confirm_one env) reservations (pos 0)

unfoldable pub total_reserved_by_sku : ℕ → ℕ → Session → ℤ
total_reserved_by_sku warehouse sku s = sum_reserved_quantity warehouse sku s

-- The test of `find_orders_with_expiring_soon`.
abbrev pub expires_within : ℤ → ℤ → InventoryReservation → Bool
expires_within now cutoff r =
    is_active_status r.status && leb_ℤ r.expires_at cutoff && ltb_ℤ now r.expires_at

-- `DISTINCT`, in the order of first occurrence.
unfoldable pub distinct : List ℕ → List ℕ
distinct [] = []
distinct (x ∷ xs) = x ∷ filter (λ (y : ℕ). not (x == y)) (distinct xs)

unfoldable pub find_orders_with_expiring_soon : Env → ℤ → Db (List ℕ)
find_orders_with_expiring_soon env within = do
  start ← draw_now env
  now ← draw_now env
  rows ← gets (λ (s : Session).
      select_columns (expires_within now (start +ℤ minutes within)) s.reservations)
  pure (distinct (map (λ (r : InventoryReservation). r.order_id) rows))
