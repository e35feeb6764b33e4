-- ===== src/Persistence/Table.antt =====
-- A table under a SQLAlchemy session whose factory has `autoflush=False` (db/session.py): a query
-- tests the rows that the database holds, and returns the session's objects, which may carry
-- assignments that no flush has written yet.
pub mod Laws
use supply_chain_execution.Common.{
  Bool, List, Option, [], false, if◌then◌else◌, none, some, true, ℕ, ◌&&◌, ◌++◌, ◌==◌, ◌∷◌,
}

pub record Row (R : Type 0) : Type 0 where
  -- What the database holds; nothing for an object that was added and never flushed.
  pub stored : Option R
  -- The object in the session.
  pub current : R

abbrev pub Table : Type 0 → Type 0
Table R = List (Row R)

module _ {R : Type 0} where
  abbrev pub matches : (R → Bool) → Row R → Bool
  matches p row = elim row.stored [ none ↦ false | some r ↦ p r ]

  -- The objects of the rows that satisfy a WHERE clause.
  unfoldable pub select : (R → Bool) → Table R → List R
  select p [] = []
  select p (row ∷ t) = if matches p row then row.current ∷ select p t else select p t

  -- The stored rows that satisfy a WHERE clause, for a query that computes on columns.
  unfoldable pub select_columns : (R → Bool) → Table R → List R
  select_columns p [] = []
  select_columns p (row ∷ t) =
      let rest = select_columns p t in
      elim row.stored [ none ↦ rest | some r ↦ if p r then r ∷ rest else rest ]

  -- `session.flush()` writes every object of the session.
  unfoldable pub flush : Table R → Table R
  flush [] = []
  flush (row ∷ t) = record { stored = some row.current; current = row.current } ∷ flush t

  -- `session.add(entity)`
  unfoldable pub add : R → Table R → Table R
  add r t = t ++ record { stored = none; current = r } ∷ []

  -- The objects of the session, in table order.
  abbrev pub objects : Table R → List R
  objects [] = []
  objects (row ∷ t) = row.current ∷ objects t

  -- `result.scalar_one_or_none()`, with `none` where it raises.
  abbrev pub scalar_one_or_none : List R → Option (Option R)
  scalar_one_or_none [] = some none
  scalar_one_or_none (r ∷ []) = some (some r)
  scalar_one_or_none (r ∷ r' ∷ rs) = none

module _ {R : Type 0} (id_of : R → ℕ) where
  -- `session.get(model, id)`
  unfoldable pub get : ℕ → Table R → Option R
  get id [] = none
  get id (row ∷ t) =
      if matches (λ _. true) row && (id_of row.current == id) then some row.current else get id t

  -- Assignments to the object `r`: the session's object of that id has the new attributes.
  unfoldable pub put : R → Table R → Table R
  put r [] = []
  put r (row ∷ t) =
      (if id_of row.current == id_of r then record { stored = row.stored; current = r } else row)
      ∷ put r t
