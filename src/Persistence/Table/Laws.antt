-- ===== src/Persistence/Table/Laws.antt =====
-- Sums over the objects of a table under flushes, additions and assignments.
use mathlib.Core.Path.{subst}
use supply_chain_execution.Common.{
  All, All-map, Bool, Bool-cases, List, [], ap, arith, inl, inr, is_some, refl, some, sym, ℕ, ◌∷◌,
  ◌≡◌, ◌≢◌, ◌⊎◌,
}
use supply_chain_execution.Common.Int.{int_laws, pos, ℤ, ◌+ℤ◌}
use supply_chain_execution.Persistence.Table.{
  Table, add, flush, get, matches, put, scalar_one_or_none, select,
}

module _ {R : Type 0} (column : R → ℤ) where
  abbrev pub total : Table R → ℤ
  total [] = pos 0
  total (row ∷ t) = column row.current +ℤ total t

  pub total-flush : (t : Table R) → total (flush t) ≡ total t
  unfolding flush
  total-flush [] = refl
  total-flush (row ∷ t) = ap (λ (n : ℤ). column row.current +ℤ n) (total-flush t)

  pub total-add : (r : R) (t : Table R) → total (add r t) ≡ total t +ℤ column r
  unfolding add
  total-add r [] = omega int_laws
  total-add r (row ∷ t) = grind (int_laws, total-add r t)

module _ {R : Type 0} (id_of : R → ℕ) where
  abbrev pub IsFresh : ℕ → Table R → Type 0
  IsFresh id [] = Unit
  IsFresh id (row ∷ t) = (id_of row.current ≢ id) × IsFresh id t

  -- The primary key: no two objects have one id.
  abbrev pub HasKeys : Table R → Type 0
  HasKeys [] = Unit
  HasKeys (row ∷ t) = IsFresh (id_of row.current) t × HasKeys t

module _ {R : Type 0} where
  -- `r` is an object of the session.
  abbrev pub Holds : R → Table R → Type 0
  Holds r [] = ⊥
  Holds r (row ∷ t) = (row.current ≡ r) ⊎ Holds r t

  -- The objects that a query returns are objects of the session.
  pub select-Holds : (p : R → Bool) (t : Table R) → All (λ r. Holds r t) (select p t)
  unfolding select
  select-Holds p [] = tt
  select-Holds p (row ∷ t) =
      let rest : All (λ r. Holds r (row ∷ t)) (select p t) =
        All-map (λ r h. inr h) (select p t) (select-Holds p t) in
      elim (Bool-cases (matches p row)) [
        | inl hit ↦ rw hit (inl refl, rest)
        | inr miss ↦ rw miss rest
      ]

module _ {R : Type 0} (id_of : R → ℕ) where
  pub Holds-IsFresh : (r : R) (id : ℕ) (t : Table R) → Holds r t → IsFresh id_of id t → id_of r ≢ id
  Holds-IsFresh r id [] h f = absurd h
  Holds-IsFresh r id (row ∷ t) (inl e) f = rw (← e) f.0
  Holds-IsFresh r id (row ∷ t) (inr h) f = Holds-IsFresh r id t h f.1

  pub get-Holds :
      (id : ℕ) (r : R) (t : Table R) → get id_of id t ≡ some r → Holds r t × (id_of r ≡ id)
  unfolding get
  get-Holds id r [] e = cc
  get-Holds id r (row ∷ t) e = ground (arith, get-Holds id r t)

  pub put-IsFresh : (r : R) (t : Table R) → IsFresh id_of (id_of r) t → put id_of r t ≡ t
  unfolding put
  put-IsFresh r [] f = refl
  put-IsFresh r (row ∷ t) f = ground (arith, put-IsFresh r t f.1)

  pub IsFresh-put :
      (r : R) (id : ℕ) (t : Table R) → IsFresh id_of id t → IsFresh id_of id (put id_of r t)
  unfolding put
  IsFresh-put r id [] f = tt
  IsFresh-put r id (row ∷ t) f = ground (arith, IsFresh-put r id t f.1)

  -- Assignments to an object change nothing about which ids are found.
  pub is_some-get-put :
      (r : R) (id : ℕ) (t : Table R)
      → is_some (get id_of id (put id_of r t)) ≡ is_some (get id_of id t)
  unfolding get put
  is_some-get-put r id [] = refl
  is_some-get-put r id (row ∷ t) = ground (arith, is_some-get-put r id t)

  pub HasKeys-put : (r : R) (t : Table R) → HasKeys id_of t → HasKeys id_of (put id_of r t)
  unfolding put
  HasKeys-put r [] k = tt
  HasKeys-put r (row ∷ t) k =
      ground (arith, HasKeys-put r t k.1, IsFresh-put r (id_of row.current) t k.0)

  module _ (column : R → ℤ) where
    -- Assignments to one object replace its share of a sum by the new one.
    pub total-put :
        (old r : R) (t : Table R)
        → HasKeys id_of t
        → Holds old t
        → id_of r ≡ id_of old
        → total column (put id_of r t) +ℤ column old ≡ total column t +ℤ column r
    unfolding put
    total-put old r [] k h i = absurd h
    total-put old r (row ∷ t) k (inl e) i = grind (int_laws, put-IsFresh r t, k)
    total-put old r (row ∷ t) k (inr h) i =
        grind (int_laws, total-put old r t k.1 h i, Holds-IsFresh old (id_of row.current) t h k.0)

module _ {R : Type 0} (id_of : R → ℕ) where
  pub IsFresh-flush : (id : ℕ) (t : Table R) → IsFresh id_of id t → IsFresh id_of id (flush t)
  unfolding flush
  IsFresh-flush id [] f = tt
  IsFresh-flush id (row ∷ t) f = (f.0, IsFresh-flush id t f.1)

  pub HasKeys-flush : (t : Table R) → HasKeys id_of t → HasKeys id_of (flush t)
  unfolding flush
  HasKeys-flush [] k = tt
  HasKeys-flush (row ∷ t) k = (IsFresh-flush (id_of row.current) t k.0, HasKeys-flush t k.1)

  IsFresh-add :
      (r : R) (id : ℕ) (t : Table R)
      → id_of r ≢ id
      → IsFresh id_of id t
      → IsFresh id_of id (add r t)
  unfolding add
  IsFresh-add r id [] n f = (n, tt)
  IsFresh-add r id (row ∷ t) n f = (f.0, IsFresh-add r id t n f.1)

  pub HasKeys-add :
      (r : R) (t : Table R) → IsFresh id_of (id_of r) t → HasKeys id_of t → HasKeys id_of (add r t)
  unfolding add
  HasKeys-add r [] f k = (tt, tt)
  HasKeys-add r (row ∷ t) f k =
      (IsFresh-add r (id_of row.current) t (λ e. f.0 (sym e)) k.0, HasKeys-add r t f.1 k.1)

module _ {R : Type 0} (p : R → Bool) (t : Table R) where
  -- The one object that a query returns is an object of the session.
  pub scalar_one-Holds : (r : R) → scalar_one_or_none (select p t) ≡ some (some r) → Holds r t
  scalar_one-Holds r e = go (select p t) (select-Holds p t) e
    where
      go : (l : List R) → All (λ x. Holds x t) l → scalar_one_or_none l ≡ some (some r) → Holds r t
      go [] h e = cc
      go (x ∷ []) h e = let same : x ≡ r = cc in subst (λ y. Holds y t) same h.0
      go (x ∷ y ∷ l) h e = cc
