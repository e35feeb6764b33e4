-- ===== src/Fulfillment/Planning/Filling.antt =====
-- What `_allocate_inventory` does to the lines of an order.
use supply_chain_execution.Common.{
  All, Bool-cases, List, [], ap, append-nil, append_assoc, inl, inr, refl, sym, ℕ, ◌++◌, ◌∙◌, ◌∷◌,
  ◌≡◌,
}
use supply_chain_execution.Common.Int.{int_laws, leb_ℤ, pos, sum_of, sum_of-append, ℤ, ◌+ℤ◌, ◌≤ℤ◌}
use supply_chain_execution.Core.Effect.{Result, ok, pure, raised, recover, resume}
use supply_chain_execution.Core.Float.{FloatOps}
use supply_chain_execution.Fulfillment.Planning.{
  Allocating, allocate_inventory, allocate_line, allocate_lines, allocate_one, keep_result,
  request_for, skip_line,
}
use supply_chain_execution.Fulfillment.Routing.{still_needed}
use supply_chain_execution.Inventory.Allocation.{AllocationResult}
use supply_chain_execution.Inventory.Allocation.Accounting.{IsAccounted, allocate-IsAccounted}
use supply_chain_execution.Inventory.Allocation.Engine.{allocate}
use supply_chain_execution.Persistence.Models.Fulfillment.{Order, OrderLine}
use supply_chain_execution.Persistence.Queries.Fulfillment.{put_order}
use supply_chain_execution.Persistence.Session.{Env, Session}

-- No line has more units allocated than ordered.
abbrev pub IsFilled : OrderLine → Type 0
IsFilled line = line.quantity_allocated ≤ℤ line.quantity_ordered

abbrev pub units_allocated : OrderLine → ℤ
units_allocated line = line.quantity_allocated

abbrev pub allocated_by : AllocationResult → ℤ
allocated_by r = r.total_allocated

-- A step of the loops, from the lines and results before it to those after.
record Fills (lines : List OrderLine) (results : List AllocationResult) (lines' : List OrderLine)
    (results' : List AllocationResult) : Type 0 where
  pub filled : All IsFilled lines → All IsFilled lines'
  pub units :
      sum_of units_allocated lines' +ℤ sum_of allocated_by results
      ≡ sum_of units_allocated lines +ℤ sum_of allocated_by results'

units_cons :
    (line line' lines rest sum added sum' : ℤ)
    → line' ≡ line +ℤ added
    → rest +ℤ (sum +ℤ added) ≡ lines +ℤ sum'
    → line' +ℤ rest +ℤ sum ≡ line +ℤ lines +ℤ sum'
units_cons line line' lines rest sum added sum' e f = grind (int_laws)

units_trans : (a b c x y z : ℤ) → b +ℤ x ≡ a +ℤ y → c +ℤ y ≡ b +ℤ z → c +ℤ x ≡ a +ℤ z
units_trans a b c x y z e f = grind (int_laws)

units_start : (a b x : ℤ) → b +ℤ pos 0 ≡ a +ℤ x → b ≡ a +ℤ x
units_start a b x e = grind (int_laws)

allocate_line-IsFilled :
    (order : Order) (line : OrderLine) (warehouse : ℕ) (r : AllocationResult)
    → IsAccounted (request_for order line warehouse) r
    → IsFilled (allocate_line r line)
allocate_line-IsFilled order line warehouse r a = grind (int_laws, a.balance, a.backorder)

module _ {F : Type 0} (ops : FloatOps F) (env : Env) (order : Order) where
  -- One line: it returns, and the line is kept or filled.
  abbrev Visits : OrderLine → Allocating → Result Allocating × Session → Type 0
  Visits line a out =
      (line' : OrderLine) × (added : List AllocationResult) × (s' : Session) × (out
        ≡ (ok (record { visited = a.visited ++ line' ∷ []; results = a.results ++ added }), s'))
      × (IsFilled line → IsFilled line')
      × (units_allocated line' ≡ units_allocated line +ℤ sum_of allocated_by added)

  skip-Visits :
      (line : OrderLine) (a : Allocating) (s : Session) → Visits line a (ok (skip_line line a), s)
  skip-Visits line a s = (
    line,
    [],
    s,
    ap (λ l. (ok (record { visited = a.visited ++ line ∷ []; results = l }), s))
        (sym (append-nil a.results)),
    λ h. h,
    omega int_laws,
  )

  allocate_one-Visits :
      (warehouse : ℕ) (line : OrderLine) (rest : List OrderLine) (a : Allocating) (s : Session)
      → Visits line a (allocate_one ops env order warehouse line rest a s)
  unfolding allocate_one keep_result put_order
  allocate_one-Visits warehouse line rest a s =
      elim (Bool-cases (leb_ℤ (still_needed line) (pos 0))) [
        | inl enough ↦ rw (enough, Visits) (skip-Visits line a s)
        | inr needs ↦
            rw (needs, Visits) (go (allocate ops env (request_for order line warehouse) s).0 _ refl)
      ]
    where
      go :
          (r : Result AllocationResult) (s₁ : Session)
          → allocate ops env (request_for order line warehouse) s ≡ (r, s₁)
          → let (r₂, s₂) = resume r (keep_result order line rest a) s₁ in
            Visits line a (recover r₂ (λ e. pure (skip_line line a)) s₂)
      go (raised e) s₁ run = skip-Visits line a s₁
      go (ok r) s₁ run =
          let a₁ = allocate-IsAccounted ops env (request_for order line warehouse) r s s₁ run in
          (
            allocate_line r line,
            r ∷ [],
            _,
            refl,
            λ h. allocate_line-IsFilled order line warehouse r a₁,
            omega int_laws,
          )

  -- The lines of one warehouse's round.
  allocate_lines-Fills :
      (warehouse : ℕ) (lines : List OrderLine) (a : Allocating) (s : Session)
      → (done_lines : List OrderLine) × (results' : List AllocationResult) × (s' : Session)
        × (allocate_lines ops env order warehouse lines a s
            ≡ (ok (record { visited = a.visited ++ done_lines; results = results' }), s'))
        × Fills lines a.results done_lines results'
  unfolding allocate_lines
  allocate_lines-Fills warehouse [] a s = (
    [],
    a.results,
    s,
    ap (λ l. (ok (record { visited = l; results = a.results }), s)) (sym (append-nil a.visited)),
    record { filled = λ h. tt; units = refl },
  )
  allocate_lines-Fills warehouse (line ∷ lines) a s =
      let (line', added, s₁, run, filled, units) = allocate_one-Visits warehouse line lines a s in
      let a' : Allocating = record {
        visited = a.visited ++ line' ∷ [];
        results = a.results ++ added;
      } in
      let (rest, results', s', run', f) = allocate_lines-Fills warehouse lines a' s₁ in
      (
        line' ∷ rest,
        results',
        s',
        rw run (
            run'
            ∙ ap (λ l. (ok (record { visited = l; results = results' }), s'))
                (append_assoc a.visited (line' ∷ []) rest)),
        record {
          filled = λ h. (filled h.0, f.filled h.1);
          units = units_cons _ _ _ _ _ _ _ units (
              ap (λ n. sum_of units_allocated rest +ℤ n)
                (sym (sum_of-append allocated_by a.results added))
              ∙ f.units);
        },
      )

  allocate_inventory-Fills :
      (warehouses : List ℕ) (lines : List OrderLine) (results : List AllocationResult) (s : Session)
      → (lines' : List OrderLine) × (results' : List AllocationResult) × (s' : Session)
        × (allocate_inventory ops env order warehouses lines results s
            ≡ (ok (lines', results'), s'))
        × Fills lines results lines' results'
  unfolding allocate_inventory
  allocate_inventory-Fills [] lines results s =
      (lines, results, s, refl, record { filled = λ h. h; units = refl })
  allocate_inventory-Fills (w ∷ warehouses) lines results s =
      let (lines₁, results₁, s₁, run, f) =
        allocate_lines-Fills w lines (record { visited = []; results = results }) s in
      let (lines', results', s', run', g) =
        allocate_inventory-Fills warehouses lines₁ results₁ s₁ in
      (
        lines',
        results',
        s',
        rw run run',
        record {
          filled = λ h. g.filled (f.filled h);
          units = units_trans _ _ _ _ _ _ f.units g.units;
        },
      )

  -- `_allocate_inventory` returns, whatever the allocations raise. If no line of the order had more
  -- units allocated than ordered, none has then, and what the lines gained in all is what the
  -- allocations that returned report.
  pub allocate_inventory-IsFilled :
      (warehouses : List ℕ) (lines : List OrderLine) (s : Session)
      → All IsFilled lines
      → (lines' : List OrderLine) × (results : List AllocationResult) × (s' : Session)
        × (allocate_inventory ops env order warehouses lines [] s ≡ (ok (lines', results), s'))
        × All IsFilled lines'
        × (sum_of units_allocated lines'
            ≡ sum_of units_allocated lines +ℤ sum_of allocated_by results)
  allocate_inventory-IsFilled warehouses lines s h =
      let (lines', results, s', run, f) = allocate_inventory-Fills warehouses lines [] s in
      (lines', results, s', run, f.filled h, units_start _ _ _ f.units)
