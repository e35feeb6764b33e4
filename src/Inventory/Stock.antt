-- ===== src/Inventory/Stock.antt =====
-- The two records of a reserved unit: the counter of a balance (models/inventory.py) and the rows
-- of active reservations; and how the session's primitives move them.
use mathlib.Core.Path.{subst}
use supply_chain_execution.Common.{
  All, Bool-cases, List, Option, [], arith, if◌then◌else◌, inl, inr, none, refl, some, true, ℕ,
  ◌==◌, ◌∷◌, ◌≡◌,
}
use supply_chain_execution.Common.Int.{pos, ℤ, ◌+ℤ◌}
use supply_chain_execution.Core.Effect.{ok, or_raise}
use supply_chain_execution.Core.Exceptions.{Error, multiple_results_found}
use supply_chain_execution.Persistence.Models.Inventory.{InventoryBalance, InventoryReservation}
use supply_chain_execution.Persistence.Queries.Inventory.{
  balance_id, get_balance, is_active_stock_of, is_balance_of, put_balance,
}
use supply_chain_execution.Persistence.Session.{Session}
use supply_chain_execution.Persistence.Table.{
  Row, Table, add, flush, matches, put, scalar_one_or_none, select,
}
use supply_chain_execution.Persistence.Table.Laws.{
  HasKeys, Holds, Holds-IsFresh, put-IsFresh, select-Holds, total, total-put,
}

-- A predicate on every object of a table.
abbrev pub AllObjects : {R : Type 0} → (R → Type 0) → Table R → Type 0
AllObjects P [] = Unit
AllObjects P (row ∷ t) = P row.current × AllObjects P t

-- The object has the key columns of its stored row.
abbrev pub SameKeys : Row InventoryBalance → Type 0
SameKeys row = elim row.stored [
  | none ↦ Unit
  | some b ↦
      (b.warehouse_id ≡ row.current.warehouse_id)
      × (b.sku_id ≡ row.current.sku_id)
      × (b.location_id ≡ row.current.location_id)
]

abbrev pub IsSynced : Table InventoryBalance → Type 0
IsSynced [] = Unit
IsSynced (row ∷ t) = SameKeys row × IsSynced t

-- The units that the balances of a warehouse and SKU outside any location hold as reserved.
abbrev pub reserved_column : ℕ → ℕ → InventoryBalance → ℤ
reserved_column w k b = if is_balance_of w k none b then b.reserved else pos 0

abbrev pub reserved_total : ℕ → ℕ → Session → ℤ
reserved_total w k s = total (reserved_column w k) s.balances

abbrev pub allocated_column : ℕ → ℕ → InventoryBalance → ℤ
allocated_column w k b = if is_balance_of w k none b then b.allocated else pos 0

abbrev pub allocated_total : ℕ → ℕ → Session → ℤ
allocated_total w k s = total (allocated_column w k) s.balances

-- The units that active reservations hold.
abbrev pub active_column : ℕ → ℕ → InventoryReservation → ℤ
active_column w k r = if is_active_stock_of w k r then r.quantity else pos 0

abbrev pub active_total : ℕ → ℕ → Session → ℤ
active_total w k s = total (active_column w k) s.reservations

-- Every reserved unit is backed by an active reservation, and the other way round.
pub record IsBacked (s : Session) : Type 0 where
  pub balance_keys : HasKeys balance_id s.balances
  pub synced : IsSynced s.balances
  pub backed : (w k : ℕ) → reserved_total w k s ≡ active_total w k s

module _ {R : Type 0} (P : R → Type 0) where
  pub AllObjects-flush : (t : Table R) → AllObjects P t → AllObjects P (flush t)
  unfolding flush
  AllObjects-flush [] h = tt
  AllObjects-flush (row ∷ t) h = (h.0, AllObjects-flush t h.1)

  pub AllObjects-add : (r : R) (t : Table R) → P r → AllObjects P t → AllObjects P (add r t)
  unfolding add
  AllObjects-add r [] p h = (p, tt)
  AllObjects-add r (row ∷ t) p h = (h.0, AllObjects-add r t p h.1)

  pub AllObjects-Holds : (r : R) (t : Table R) → AllObjects P t → Holds r t → P r
  AllObjects-Holds r [] h m = absurd m
  AllObjects-Holds r (row ∷ t) h (inl e) = subst P e h.0
  AllObjects-Holds r (row ∷ t) h (inr m) = AllObjects-Holds r t h.1 m

  pub AllObjects-put :
      (id_of : R → ℕ) (r : R) (t : Table R) → P r → AllObjects P t → AllObjects P (put id_of r t)
  unfolding put
  AllObjects-put id_of r [] p h = tt
  AllObjects-put id_of r (row ∷ t) p h = elim (Bool-cases (id_of row.current == id_of r)) [
    | inl hit ↦ rw hit (p, AllObjects-put id_of r t p h.1)
    | inr miss ↦ rw miss (h.0, AllObjects-put id_of r t p h.1)
  ]

pub IsSynced-flush : (t : Table InventoryBalance) → IsSynced (flush t)
unfolding flush
IsSynced-flush [] = tt
IsSynced-flush (row ∷ t) = ((refl, refl, refl), IsSynced-flush t)

matches-SameKeys :
    (w k : ℕ) (o : Option InventoryBalance) (c : InventoryBalance)
    → SameKeys (record { stored = o; current = c })
    → matches (is_balance_of w k none) (record { stored = o; current = c }) ≡ true
    → is_balance_of w k none c ≡ true
matches-SameKeys w k none c y e = cc
matches-SameKeys w k (some b) c y e = ground arith

pub select-SameKeys :
    (w k : ℕ) (t : Table InventoryBalance)
    → IsSynced t
    → All (λ b. is_balance_of w k none b ≡ true) (select (is_balance_of w k none) t)
unfolding select
select-SameKeys w k [] y = tt
select-SameKeys w k (row ∷ t) y = elim (Bool-cases (matches (is_balance_of w k none) row)) [
  | inl hit ↦
      rw hit (matches-SameKeys w k row.stored row.current y.0 hit, select-SameKeys w k t y.1)
  | inr miss ↦ rw miss (select-SameKeys w k t y.1)
]

scalar_one : {R : Type 0} (l : List R) (r : R) → scalar_one_or_none l ≡ some (some r) → l ≡ r ∷ []
scalar_one [] r e = cc
scalar_one (x ∷ []) r e = cc
scalar_one (x ∷ y ∷ l) r e = cc

pub or_raise_state : {A : Type 0} (o : Option A) (x : Error) (s : Session) → (or_raise o x s).1 ≡ s
or_raise_state none x s = refl
or_raise_state (some a) x s = refl

pub or_raise-eq-ok :
    {A : Type 0} (o : Option A) (x : Error) (s s' : Session) (a : A)
    → or_raise o x s ≡ (ok a, s')
    → (o ≡ some a) × (s' ≡ s)
or_raise-eq-ok none x s s' a e = cc
or_raise-eq-ok (some b) x s s' a e = (cc, cc)

-- A balance that a query by key returns is an object of the session with that key.
pub get_balance-Holds :
    (w k : ℕ) (b : InventoryBalance) (s s' : Session)
    → IsSynced s.balances
    → get_balance w k none s ≡ (ok (some b), s')
    → Holds b s.balances × (is_balance_of w k none b ≡ true) × (s' ≡ s)
unfolding get_balance
get_balance-Holds w k b s s' y e =
    let l = select (is_balance_of w k none) s.balances in
    let (found, same) =
      or_raise-eq-ok (scalar_one_or_none l) multiple_results_found s s' (some b) e in
    let one = scalar_one l b found in
    (
      (subst (All (λ x. Holds x s.balances)) one (select-Holds _ s.balances)).0,
      (subst (All (λ x. is_balance_of w k none x ≡ true)) one (select-SameKeys w k s.balances y)).0,
      same,
    )

-- The same row: its id and key columns are those of the other.
abbrev pub SameIdentity : InventoryBalance → InventoryBalance → Type 0
SameIdentity b b' =
    (b'.id ≡ b.id)
    × (b'.warehouse_id ≡ b.warehouse_id)
    × (b'.sku_id ≡ b.sku_id)
    × (b'.location_id ≡ b.location_id)

pub IsSynced-put :
    (b b' : InventoryBalance) (t : Table InventoryBalance)
    → HasKeys balance_id t
    → Holds b t
    → SameIdentity b b'
    → IsSynced t
    → IsSynced (put balance_id b' t)
unfolding put
IsSynced-put b b' [] k h i y = tt
IsSynced-put b b' (row ∷ t) k (inl e) i y = ground (arith, put-IsFresh balance_id b' t)
IsSynced-put b b' (row ∷ t) k (inr h) i y =
    ground
      (arith, IsSynced-put b b' t k.1 h i y.1, Holds-IsFresh balance_id b row.current.id t h k.0)

-- An assignment to a balance's counters, its identity kept.
pub put_balance-totals :
    (column : InventoryBalance → ℤ) (b b' : InventoryBalance) (s : Session)
    → HasKeys balance_id s.balances
    → Holds b s.balances
    → b'.id ≡ b.id
    → total column (put_balance b' s).1.balances +ℤ column b ≡ total column s.balances +ℤ column b'
unfolding put_balance
put_balance-totals column b b' s k h i = total-put balance_id column b b' s.balances k h i

-- A lookup leaves the session as it is.
pub get_balance_state :
    (w k : ℕ) (location : Option ℕ) (s : Session) → (get_balance w k location s).1 ≡ s
unfolding get_balance
get_balance_state w k location s =
    or_raise_state (scalar_one_or_none (select (is_balance_of w k location) s.balances))
      multiple_results_found s

pub or_raise_found :
    {A : Type 0} (o : Option A) (x : Error) (s : Session) (a : A)
    → (or_raise o x s).0 ≡ ok a
    → o ≡ some a
or_raise_found none x s a e = cc
or_raise_found (some b) x s a e = cc
