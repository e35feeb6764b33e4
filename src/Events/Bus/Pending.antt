-- ===== src/Events/Bus/Pending.antt =====
-- `process_pending` (events/bus.py): what becomes of the events that it lists.
use supply_chain_execution.Common.{
  ==_iff, All, All-map, All-sorted, All-take, Bool, Bool-cases, List, Option, [], ap, arith,
  count_of, count_of-sorted, count_of-take, false, if◌then◌else◌, inl, inr, is_some, length,
  length-take, refl, some, sorted, true, ℕ, ◌+◌, ◌==◌, ◌∙◌, ◌∷◌, ◌≡◌, ◌≤◌, ◌⊎◌,
}
use supply_chain_execution.Common.Int.{int_laws, pos, ℤ, ◌+ℤ◌}
use supply_chain_execution.Core.Effect.{ok}
use supply_chain_execution.Events.Bus.{
  Registry, after_dispatch, every, process_events, process_pending,
}
use supply_chain_execution.Events.Bus.Settling.{
  AreQuiet, IsSettled, dispatch-settles, event_status, extend_registered-AreQuiet, is_processed,
  registered-IsQuiet,
}
use supply_chain_execution.Persistence.Models.Events.{DomainEvent, ProcessingStatus, is_pending}
use supply_chain_execution.Persistence.Queries.Events.{event_id, list_pending, occurred_earlier}
use supply_chain_execution.Persistence.Session.{Env, Session}
use supply_chain_execution.Persistence.Table.{Table, select}
use supply_chain_execution.Persistence.Table.Laws.{HasKeys, Holds, IsFresh, select-Holds}

-- No id stands twice.
abbrev pub AreDistinct : List DomainEvent → Type 0
AreDistinct events = (k : ℕ) → count_of (λ (e : DomainEvent). e.id == k) events ≤ 1

abbrev pub AreThere : Session → List DomainEvent → Type 0
AreThere s events = All (λ (e : DomainEvent). is_some (event_status e.id s.events) ≡ true) events

-- The events of a list that the session has as processed.
abbrev pub processed_among : List DomainEvent → Session → ℕ
processed_among events s =
    count_of (λ (e : DomainEvent). is_processed (event_status e.id s.events)) events

abbrev pub IsOver : Option ProcessingStatus → Type 0
IsOver o = (o ≡ some ProcessingStatus.processed) ⊎ (o ≡ some ProcessingStatus.failed)

-- The rest of a list does not name its first event.
later_other :
    (k : ℕ) (events : List DomainEvent)
    → count_of (λ (e : DomainEvent). e.id == k) events ≡ 0
    → All (λ (e : DomainEvent). (k == e.id) ≡ false) events
later_other k [] h = tt
later_other k (e ∷ events) h = (ground (arith, h), later_other k events (omega (arith, h)))

IsSettled-IsOver : (o : Option ProcessingStatus) (n : ℤ) → IsSettled o n → IsOver o
IsSettled-IsOver o n (inl (e, _)) = inl e
IsSettled-IsOver o n (inr (e, _)) = inr e

counted :
    (o : Option ProcessingStatus) (n count : ℤ) (rest : ℕ)
    → IsSettled o n
    → count +ℤ n +ℤ pos rest ≡ count +ℤ pos ((if is_processed o then 1 else 0) + rest)
counted o n count rest (inl (e, m)) = rw (e, m) (omega int_laws)
counted o n count rest (inr (e, m)) = rw (e, m) (omega int_laws)

module _ (env : Env) where
  process_events-settles :
      (registry : Registry) (events : List DomainEvent) (count : ℤ) (s : Session)
      → AreQuiet registry
      → AreDistinct events
      → AreThere s events
      → (registry' : Registry) × (n : ℤ) × (s' : Session) × (process_events env registry events
            count s
          ≡ (ok (registry', n), s'))
        × (n ≡ count +ℤ pos (processed_among events s'))
        × All (λ (e : DomainEvent). IsOver (event_status e.id s'.events)) events
        × ((k : ℕ)
            → All (λ (e : DomainEvent). (k == e.id) ≡ false) events
            → event_status k s'.events ≡ event_status k s.events)
  unfolding process_events after_dispatch
  process_events-settles registry [] count s quiet unique there =
      (registry, count, s, refl, omega int_laws, tt, λ k h. refl)
  process_events-settles registry (event ∷ events) count s quiet unique there =
      let (n, s₁, one, settled, others) = dispatch-settles env registry event s quiet there.0 in
      let apart = later_other event.id events (once event events unique) in
      let there₁ : AreThere s₁ events = still event events s s₁ others apart there.1 in
      let registry₁ = after_dispatch event.event_type registry in
      let quiet₁ =
        extend_registered-AreQuiet _ _ registry (registered-IsQuiet every registry quiet) quiet in
      let (r, m, s', rest, count', over, kept) =
        process_events-settles registry₁ events (count +ℤ n) s₁ quiet₁
          (λ k. omega (arith, unique k)) there₁ in
      let same = kept event.id apart in
      (
        r,
        m,
        s',
        rw one rest,
        count' ∙ rw same (counted _ n count (processed_among events s') settled),
        (rw same (IsSettled-IsOver _ n settled), over),
        λ k h. kept k h.1 ∙ others k (flip event.id k h.0),
      )
    where
      once :
          (e : DomainEvent) (es : List DomainEvent)
          → AreDistinct (e ∷ es)
          → count_of (λ (x : DomainEvent). x.id == e.id) es ≡ 0
      once e es h = let g = h e.id in ground (arith, g)

      flip : (a b : ℕ) → (b == a) ≡ false → (a == b) ≡ false
      flip a b e = ground (arith, e)

      still :
          (e : DomainEvent) (es : List DomainEvent) (s s₁ : Session)
          → ((k : ℕ) → (e.id == k) ≡ false → event_status k s₁.events ≡ event_status k s.events)
          → All (λ (x : DomainEvent). (e.id == x.id) ≡ false) es
          → AreThere s es
          → AreThere s₁ es
      still e [] s s₁ others apart h = tt
      still e (x ∷ es) s s₁ others apart h =
          (rw (others x.id apart.0) h.0, still e es s s₁ others apart.1 h.1)

-- The rows that a query returns.
count_of-select_fresh :
    (p : DomainEvent → Bool) (k : ℕ) (t : Table DomainEvent)
    → IsFresh event_id k t
    → count_of (λ (e : DomainEvent). e.id == k) (select p t) ≡ 0
unfolding select
count_of-select_fresh p k [] f = refl
count_of-select_fresh p k (row ∷ t) f = ground (arith, f, count_of-select_fresh p k t f.1)

select-AreDistinct :
    (p : DomainEvent → Bool) (t : Table DomainEvent) → HasKeys event_id t → AreDistinct (select p t)
unfolding select
select-AreDistinct p [] h k = omega arith
select-AreDistinct p (row ∷ t) h k = elim (Bool-cases (row.current.id == k)) [
  | inl own ↦
      let e : row.current.id ≡ k = (==_iff row.current.id k).0 own in
      let none_else = count_of-select_fresh p k t (rw (← e) h.0) in ground (arith, none_else, own)
  | inr other ↦ ground (arith, other, select-AreDistinct p t h.1 k)
]

Holds-there :
    (e : DomainEvent) (t : Table DomainEvent) → Holds e t → is_some (event_status e.id t) ≡ true
Holds-there e [] h = absurd h
Holds-there e (row ∷ t) (inl same) = rw same (ground arith)
Holds-there e (row ∷ t) (inr h) = ground (arith, Holds-there e t h)

-- If no two events have one id, and no handler touches the table of events: `process_pending`
-- returns, whatever handlers raise, and leaves none of the events that it listed pending, as each is
-- processed or failed. It returns how many of them are processed, and it lists at most `limit`.
pub process_pending-settles :
    (env : Env) (registry : Registry) (limit : ℕ) (s : Session)
    → AreQuiet registry
    → HasKeys event_id s.events
    → (registry' : Registry) × (s' : Session) × (process_pending env registry limit s
        ≡ (ok (registry', pos (processed_among (list_pending limit s) s')), s'))
      × All (λ (e : DomainEvent). IsOver (event_status e.id s'.events)) (list_pending limit s)
      × (length (list_pending limit s) ≤ limit)
unfolding process_pending list_pending
process_pending-settles env registry limit s quiet keys =
    let p : DomainEvent → Bool = λ (e : DomainEvent). is_pending e.processing_status in
    let found = select p s.events in
    let events = list_pending limit s in
    let unique : AreDistinct events = λ k. omega (
      arith,
      select-AreDistinct p s.events keys k,
      count_of-sorted (λ (e : DomainEvent). e.id == k) occurred_earlier found,
      count_of-take (λ (e : DomainEvent). e.id == k) limit (sorted occurred_earlier found),
    ) in
    let there : AreThere s events = All-take _ limit _ (
      All-sorted _ occurred_earlier found
        (All-map (λ e h. Holds-there e s.events h) found (select-Holds p s.events))) in
    let (r, n, s', run, count, over, _) =
      process_events-settles env registry events (pos 0) s quiet unique there in
    let number : n ≡ pos (processed_among events s') = count ∙ add_nothing _ in
    (r, s', run ∙ ap (λ (m : ℤ). (ok (r, m), s')) number, over, length-take limit _)
  where
    add_nothing : (m : ℕ) → pos 0 +ℤ pos m ≡ pos m
    add_nothing m = omega int_laws
