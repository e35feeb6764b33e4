-- ===== src/Events/Ordering/Sequence.antt =====
-- Lists of events that are numbered one by one, as the functions of events/ordering.py and
-- repositories/events.py see them.
use supply_chain_execution.Common.{
  List, String, [], append-nil, append_assoc, arith, false, insert_sorted, refl, sort_into, sorted,
  sym, true, ℕ, ◌++◌, ◌∙◌, ◌∷◌, ◌≡◌,
}
use supply_chain_execution.Common.Int.{eqb_ℤ, int_laws, ltb_ℤ, max_ℤ, pos, ℤ, ◌+ℤ◌, ◌≤ℤ◌}
use supply_chain_execution.Events.Ordering.{last_sequence, violations_from}
use supply_chain_execution.Persistence.Models.Events.{DomainEvent}
use supply_chain_execution.Persistence.Queries.Events.{earlier_sequence, max_sequence}

-- The events are numbered upwards from `n`, one by one.
abbrev pub IsNumbered : ℤ → List DomainEvent → Type 0
IsNumbered n [] = Unit
IsNumbered n (e ∷ es) = (e.sequence_number ≡ n) × IsNumbered (n +ℤ pos 1) es

-- A numbered list has no violations.
pub violations_from-numbered :
    (kind : String) (id : ℕ) (n : ℤ) (es : List DomainEvent)
    → IsNumbered n es
    → violations_from kind id n es ≡ []
unfolding violations_from
violations_from-numbered kind id n [] h = refl
violations_from-numbered kind id n (e ∷ es) h =
    let same : eqb_ℤ e.sequence_number n ≡ true = grind (int_laws, h.0) in
    rw same (violations_from-numbered kind id (e.sequence_number +ℤ pos 1) es (rw h.0 h.1))

-- Insertion after every smaller or equal element appends.
abbrev UpTo : ℤ → List DomainEvent → Type 0
UpTo n [] = Unit
UpTo n (e ∷ es) = (e.sequence_number ≤ℤ n) × UpTo n es

insert_last :
    (x : DomainEvent) (acc : List DomainEvent)
    → UpTo x.sequence_number acc
    → insert_sorted earlier_sequence x acc ≡ acc ++ x ∷ []
unfolding insert_sorted
insert_last x [] h = refl
insert_last x (y ∷ ys) h =
    let later : ltb_ℤ x.sequence_number y.sequence_number ≡ false = let p = h.0 in ground arith in
    rw (later, insert_last x ys h.1) refl

UpTo-append :
    (n m : ℤ) (x : DomainEvent) (acc : List DomainEvent)
    → UpTo n acc
    → n ≤ℤ m
    → x.sequence_number ≤ℤ m
    → UpTo m (acc ++ x ∷ [])
UpTo-append n m x [] h l lx = (lx, tt)
UpTo-append n m x (y ∷ ys) h l lx =
    (let p = h.0 in omega (arith, p, l), UpTo-append n m x ys h.1 l lx)

sort_numbered :
    (n : ℤ) (acc es : List DomainEvent)
    → UpTo n acc
    → IsNumbered n es
    → sort_into earlier_sequence acc es ≡ acc ++ es
unfolding sort_into
sort_numbered n acc [] u h = sym (append-nil acc)
sort_numbered n acc (e ∷ es) u h =
    let next : UpTo (n +ℤ pos 1) (acc ++ e ∷ []) =
      let step : n ≤ℤ n +ℤ pos 1 = grind int_laws in
      UpTo-append n (n +ℤ pos 1) e acc u step (rw h.0 step) in
    rw (insert_last e acc (rw h.0 u))
      (sort_numbered (n +ℤ pos 1) (acc ++ e ∷ []) es next h.1 ∙ append_assoc acc (e ∷ []) es)

pub sorted_numbered :
    (n : ℤ) (es : List DomainEvent) → IsNumbered n es → sorted earlier_sequence es ≡ es
unfolding sorted
sorted_numbered n es h = sort_numbered n [] es tt h

-- The last number given, and the next.
abbrev pub count_on : ℤ → List DomainEvent → ℤ
count_on n [] = n
count_on n (e ∷ es) = count_on (n +ℤ pos 1) es

pub IsNumbered-append :
    (n : ℤ) (es : List DomainEvent) (x : DomainEvent)
    → IsNumbered n es
    → x.sequence_number ≡ count_on n es
    → IsNumbered n (es ++ x ∷ [])
IsNumbered-append n [] x h e = (e, tt)
IsNumbered-append n (y ∷ ys) x h e = (h.0, IsNumbered-append (n +ℤ pos 1) ys x h.1 e)

max_numbered :
    (n : ℤ) (e : DomainEvent) (es : List DomainEvent)
    → IsNumbered n (e ∷ es)
    → (max_sequence (e ∷ es) +ℤ pos 1 ≡ count_on n (e ∷ es)) × (n ≤ℤ max_sequence (e ∷ es))
unfolding max_sequence
max_numbered n e [] h = (rw h.0 refl, rw h.0 (omega arith))
max_numbered n e (e' ∷ es) h =
    let (next, above) = max_numbered (n +ℤ pos 1) e' es h.1 in
    let q : max_ℤ e.sequence_number (max_sequence (e' ∷ es)) ≡ max_sequence (e' ∷ es) =
      rw h.0 (grind (int_laws, above)) in
    (rw q next, rw q (grind (int_laws, above)))

pub next_numbered :
    (es : List DomainEvent) → IsNumbered (pos 1) es → max_sequence es +ℤ pos 1 ≡ count_on (pos 1) es
unfolding max_sequence ◌+ℤ◌
next_numbered [] h = refl
next_numbered (e ∷ es) h = (max_numbered (pos 1) e es h).0

pub last_numbered :
    (n m : ℤ) (es : List DomainEvent)
    → IsNumbered n es
    → m +ℤ pos 1 ≡ n
    → last_sequence m es +ℤ pos 1 ≡ count_on n es
last_numbered n m [] h e = e
last_numbered n m (x ∷ xs) h e = last_numbered (n +ℤ pos 1) x.sequence_number xs h.1 (rw h.0 refl)
