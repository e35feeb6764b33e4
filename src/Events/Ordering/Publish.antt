-- ===== src/Events/Ordering/Publish.antt =====
-- The numbers that `publish` (events/bus.py) gives to the events of an aggregate, and
-- `validate_aggregate` (events/ordering.py), which checks them.
use text.Mathlib.TextEquality.{eq_iff}
use supply_chain_execution.Common.{
  ==_iff, Bool, Bool-cases, List, Option, String, [], arith, false, if-false, if-true,
  if◌then◌else◌, inl, inr, refl, some, sym, true, ℕ, ◌&&◌, ◌++◌, ◌+◌, ◌∙◌, ◌∷◌, ◌≡◌,
}
use supply_chain_execution.Common.Int.{int_laws, pos}
use supply_chain_execution.Events.Bus.{DomainEventPayload, RedisClient, new_event, publish}
use supply_chain_execution.Events.Bus.Publish.{publish_state}
use supply_chain_execution.Events.Ordering.{get_expected_next_sequence, validate_aggregate}
use supply_chain_execution.Events.Ordering.Sequence.{
  IsNumbered, IsNumbered-append, last_numbered, next_numbered, sorted_numbered,
  violations_from-numbered,
}
use supply_chain_execution.Persistence.Models.Events.{DomainEvent}
use supply_chain_execution.Persistence.Queries.Events.{
  get_next_sequence, is_of_aggregate, list_for_aggregate,
}
use supply_chain_execution.Persistence.Session.{Env, Session, flush_all}
use supply_chain_execution.Persistence.Table.{Table, add, flush, select, select_columns}

-- Every event of the session has been flushed.
abbrev pub IsFlushed : Table DomainEvent → Type 0
IsFlushed [] = Unit
IsFlushed (row ∷ t) = (row.stored ≡ some row.current) × IsFlushed t

abbrev pub events_of : String → ℕ → Table DomainEvent → List DomainEvent
events_of kind id t = select (is_of_aggregate kind id) t

-- The event log of an aggregate: flushed, and numbered from 1 in the order of publication.
pub record IsSequenced (kind : String) (id : ℕ) (s : Session) : Type 0 where
  pub flushed : IsFlushed s.events
  pub numbered : IsNumbered (pos 1) (events_of kind id s.events)

-- On a flushed table, the stored rows of a query are its objects.
select_columns-flushed :
    (p : DomainEvent → Bool) (t : Table DomainEvent) → IsFlushed t → select_columns p t ≡ select p t
unfolding select_columns select
select_columns-flushed p [] h = refl
select_columns-flushed p (row ∷ t) h = rw (h.0, select_columns-flushed p t h.1) refl

IsFlushed-flush : (t : Table DomainEvent) → IsFlushed (flush t)
unfolding flush
IsFlushed-flush [] = tt
IsFlushed-flush (row ∷ t) = (refl, IsFlushed-flush t)

select-flush-add :
    (p : DomainEvent → Bool) (x : DomainEvent) (t : Table DomainEvent)
    → IsFlushed t
    → select p (flush (add x t)) ≡ (if p x then select p t ++ x ∷ [] else select p t)
unfolding select flush add
select-flush-add p x [] h = elim (Bool-cases (p x)) [ inl y ↦ rw y refl | inr n ↦ rw n refl ]
select-flush-add p x (row ∷ t) h = rw (select-flush-add p x t h.1, h.0) ground arith

select-flush-other :
    (p : DomainEvent → Bool) (x : DomainEvent) (t : Table DomainEvent)
    → IsFlushed t
    → p x ≡ false
    → select p (flush (add x t)) ≡ select p t
select-flush-other p x t h other = select-flush-add p x t h ∙ if-false _ _ _ other

select-flush-own :
    (p : DomainEvent → Bool) (x : DomainEvent) (t : Table DomainEvent)
    → IsFlushed t
    → p x ≡ true
    → select p (flush (add x t)) ≡ select p t ++ x ∷ []
select-flush-own p x t h own = select-flush-add p x t h ∙ if-true _ _ _ own

both_true : (p q : Bool) → (p && q) ≡ true → (p ≡ true) × (q ≡ true)
both_true p q e = ground arith

module _ (kind : String) (id : ℕ) (event : DomainEventPayload) (s : Session)
    (h : IsSequenced kind id s) where
  abbrev stored : ℕ → DomainEvent
  stored new = new_event new (get_next_sequence event.aggregate_type event.aggregate_id s) event

  added-IsNumbered :
      (new : ℕ) → IsNumbered (pos 1) (events_of kind id (flush (add (stored new) s.events)))
  unfolding get_next_sequence
  added-IsNumbered new =
      let log = events_of kind id s.events in
      elim (Bool-cases (is_of_aggregate kind id (stored new))) [
        | inr other ↦
            rw (select-flush-other (is_of_aggregate kind id) (stored new) s.events h.flushed other)
              h.numbered
        | inl own ↦
            let (same_kind, same_id) = both_true _ _ own in
            let k : event.aggregate_type ≡ kind = (eq_iff event.aggregate_type kind).0 same_kind in
            let i : event.aggregate_id ≡ id = (==_iff event.aggregate_id id).0 same_id in
            rw (select-flush-own (is_of_aggregate kind id) (stored new) s.events h.flushed own) (
              IsNumbered-append (pos 1) log (stored new) h.numbered (
                rw (k, i, select_columns-flushed (is_of_aggregate kind id) s.events h.flushed)
                  (next_numbered log h.numbered)))
      ]

  -- On a flushed event table, publishing an event, of this aggregate or another, keeps the log of an aggregate numbered from 1
  -- without gaps, even if the Redis stream refuses the event.
  pub publish-IsSequenced :
      (env : Env) (redis : Option RedisClient) → IsSequenced kind id (publish env redis event s).1
  unfolding flush_all
  publish-IsSequenced env redis =
      let id' = env.uuid4 s.draws in
      let added : Session =
        flush_all (record s { events = add (stored id') s.events; draws = s.draws + 1 }) in
      let kept : IsSequenced kind id added = record {
        flushed = IsFlushed-flush (add (stored id') s.events);
        numbered = added-IsNumbered id';
      } in
      rw (publish_state env redis event s) kept

-- A flushed log that is numbered from 1 without gaps has no ordering violation, and the number that the
-- validator expects next is the one that `publish` will give.
pub validate_aggregate-IsSequenced :
    (kind : String) (id : ℕ) (s : Session)
    → IsSequenced kind id s
    → (validate_aggregate kind id s ≡ [])
      × (get_expected_next_sequence kind id s ≡ get_next_sequence kind id s)
unfolding validate_aggregate get_expected_next_sequence get_next_sequence list_for_aggregate
validate_aggregate-IsSequenced kind id s h =
    let log = events_of kind id s.events in
    rw
      (
        sorted_numbered (pos 1) log h.numbered,
        select_columns-flushed (is_of_aggregate kind id) s.events h.flushed,
      )
      (
        violations_from-numbered kind id (pos 1) log h.numbered,
        last_numbered (pos 1) (pos 0) log h.numbered (omega int_laws)
            ∙ sym (next_numbered log h.numbered),
      )
