-- ===== src/Inventory/Reservations/Lifecycle.antt =====
-- What domain/inventory/reservation_manager.py promises of a reservation's last moments.
use supply_chain_execution.Common.{
  Bool-cases, List, [], ap, arith, false, inl, inr, length, refl, ◌*◌, ◌++◌, ◌+◌, ◌∙◌, ◌∷◌, ◌≡◌,
}
use supply_chain_execution.Common.Int.{int_laws, ltb_ℤ, min_ℤ, negsuc, pos, ℤ, ◌+ℤ◌, ◌≤ℤ◌}
use supply_chain_execution.Core.Effect.{Result, for_each, ok, pure, raised, recover, resume}
use supply_chain_execution.Inventory.Allocation.{release_single_reservation}
use supply_chain_execution.Inventory.Reservations.{
  ExpiryProcessResult, expire_one, extended, minutes, process_expired,
}
use supply_chain_execution.Persistence.Models.Inventory.{InventoryReservation}
use supply_chain_execution.Persistence.Queries.Inventory.{get_expired}
use supply_chain_execution.Persistence.Session.{Env, Session, minute}

minutes-bound :
    (n : ℤ)
    → (minutes (min_ℤ n (pos 60)) ≤ℤ pos (60 * minute))
      × (n ≤ℤ pos 60 → minutes (min_ℤ n (pos 60)) ≡ minutes n)
minutes-bound (pos n) = elim (Bool-cases (ltb_ℤ (pos 60) (pos n))) [
  | inl long ↦ rw long (omega arith, λ e. absurd (ground (arith, long, e)))
  | inr short ↦ rw short (ground (arith, short), λ e. refl)
]
minutes-bound (negsuc n) =
    let short : ltb_ℤ (pos 60) (negsuc n) ≡ false = ground arith in
    rw short (grind int_laws, λ e. refl)

-- An extension adds at most an hour, whatever was asked for, and exactly what was asked for up to
-- an hour.
pub extended-bound :
    (additional : ℤ) (r : InventoryReservation)
    → ((extended additional r).expires_at ≤ℤ r.expires_at +ℤ pos (60 * minute))
      × (additional ≤ℤ pos 60
          → (extended additional r).expires_at ≡ r.expires_at +ℤ minutes additional)
extended-bound additional r =
    let (bound, exact) = minutes-bound additional in
    (grind (int_laws, bound), λ e. ap (λ (x : ℤ). r.expires_at +ℤ x) (exact e))

abbrev freed : InventoryReservation → ExpiryProcessResult → ExpiryProcessResult
freed r acc = record {
  count = acc.count +ℤ pos 1;
  units = acc.units +ℤ r.quantity;
  errors = acc.errors;
}

abbrev noted : InventoryReservation → ExpiryProcessResult → ExpiryProcessResult
noted r acc = record {
  count = acc.count +ℤ pos 1;
  units = acc.units;
  errors = acc.errors ++ r.id ∷ [];
}

expire_one-returns :
    (r : InventoryReservation) (acc : ExpiryProcessResult) (s : Session)
    → (acc' : ExpiryProcessResult) × (s' : Session) × (expire_one r acc s ≡ (ok acc', s'))
      × (acc'.count ≡ acc.count +ℤ pos 1)
unfolding expire_one
expire_one-returns r acc s = go (release_single_reservation r s)
  where
    go :
        (x : Result (Unit {0}) × Session)
        → (acc' : ExpiryProcessResult) × (s' : Session) × (recover
              (resume x.0 (λ _. pure (freed r acc)) x.1).0
              (λ e. pure (noted r acc))
              (resume x.0 (λ (_ : Unit {0}). pure (freed r acc)) x.1).1
            ≡ (ok acc', s'))
          × (acc'.count ≡ acc.count +ℤ pos 1)
    go (ok tt, s') = (freed r acc, s', refl, refl)
    go (raised e, s') = (noted r acc, s', refl, refl)

expire_all-returns :
    (rs : List InventoryReservation) (acc : ExpiryProcessResult) (s : Session)
    → (acc' : ExpiryProcessResult) × (s' : Session) × (for_each expire_one rs acc s ≡ (ok acc', s'))
      × (acc'.count ≡ acc.count +ℤ pos (length rs))
unfolding for_each
expire_all-returns [] acc s = (acc, s, refl, grind int_laws)
expire_all-returns (r ∷ rs) acc s =
    let (a, s₁, one, c) = expire_one-returns r acc s in
    let (a', s', rest, c') = expire_all-returns rs a s₁ in
    (a', s', rw one rest, grind (int_laws, c, c'))

-- `process_expired` always returns, and it has processed as many reservations as had expired: one
-- whose release raises does not keep the others.
pub process_expired-returns :
    (env : Env) (s : Session)
    → (acc : ExpiryProcessResult) × (s' : Session) × (process_expired env s ≡ (ok acc, s'))
      × (acc.count ≡ pos (length (get_expired (env.now s.draws) s)))
unfolding process_expired get_expired
process_expired-returns env s =
    let (acc, s', e, c) =
      expire_all-returns (get_expired (env.now s.draws) s) _ (record s { draws = s.draws + 1 }) in
    (acc, s', e, c ∙ grind int_laws)
