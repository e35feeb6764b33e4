-- ===== src/Events/Bus/Settling.antt =====
-- `dispatch` (events/bus.py): what becomes of the status of each event.
use supply_chain_execution.Common.{
  All, All-append, Bool, Bool-cases, List, Option, [], ap, arith, false, if◌then◌else◌, inl, inr,
  is_some, none, refl, some, true, ℕ, ◌==◌, ◌∙◌, ◌∷◌, ◌≡◌, ◌⊎◌,
}
use supply_chain_execution.Common.Int.{pos, ℤ}
use supply_chain_execution.Core.Effect.{
  Result, catch, for_each, ok, pure, raise, raised, resume_inv, ◌>>◌,
}
use supply_chain_execution.Events.Bus.{
  DomainEventPayload, Handler, Registry, Topic, dispatch, extend_registered, handlers_for, or_empty,
  payload_of, registered, run_handlers, same_topic,
}
use supply_chain_execution.Persistence.Models.Events.{DomainEvent, ProcessingStatus}
use supply_chain_execution.Persistence.Queries.Events.{mark_failed, mark_processed, update_event}
use supply_chain_execution.Persistence.Session.{Env, Session}
use supply_chain_execution.Persistence.Table.{Table}

-- The status of the first event with an id.
abbrev pub event_status : ℕ → Table DomainEvent → Option ProcessingStatus
event_status id [] = none
event_status id (row ∷ t) =
    if row.current.id == id then some row.current.processing_status else event_status id t

abbrev pub is_processed : Option ProcessingStatus → Bool
is_processed (some ProcessingStatus.processed) = true
is_processed _ = false

-- A handler, returning or raising, leaves the table of events alone.
abbrev pub IsQuiet : Handler → Type 0
IsQuiet h = (payload : DomainEventPayload) (s : Session) → (h payload s).1.events ≡ s.events

abbrev pub AreQuiet : Registry → Type 0
AreQuiet [] = Unit
AreQuiet ((topic, handlers) ∷ registry) = All IsQuiet handlers × AreQuiet registry

pub registered-IsQuiet :
    (topic : Topic) (registry : Registry)
    → AreQuiet registry
    → All IsQuiet (or_empty (registered topic registry))
unfolding registered
registered-IsQuiet topic [] h = tt
registered-IsQuiet topic ((key, handlers) ∷ registry) h = elim (Bool-cases (same_topic key topic)) [
  | inl hit ↦ rw hit h.0
  | inr miss ↦ rw miss (registered-IsQuiet topic registry h.1)
]

pub extend_registered-AreQuiet :
    (topic : Topic) (more : List Handler) (registry : Registry)
    → All IsQuiet more
    → AreQuiet registry
    → AreQuiet (extend_registered topic more registry)
unfolding extend_registered
extend_registered-AreQuiet topic more [] m h = tt
extend_registered-AreQuiet topic more ((key, handlers) ∷ registry) m h =
    elim (Bool-cases (same_topic key topic)) [
      | inl hit ↦ rw hit (All-append IsQuiet handlers more h.0 m, h.1)
      | inr miss ↦ rw miss (h.0, extend_registered-AreQuiet topic more registry m h.1)
    ]

run_handlers-events :
    (handlers : List Handler) (payload : DomainEventPayload) (s : Session)
    → All IsQuiet handlers
    → (run_handlers handlers payload s).1.events ≡ s.events
unfolding run_handlers for_each
run_handlers-events [] payload s h = refl
run_handlers-events (f ∷ handlers) payload s h =
    resume_inv (λ t. t.events ≡ s.events) (f payload s).0 _ (f payload s).1 (h.0 payload s)
      λ u e. run_handlers-events handlers payload (f payload s).1 h.1 ∙ h.0 payload s

module _ (id : ℕ) (f : DomainEvent → DomainEvent) (same : (e : DomainEvent) → (f e).id ≡ e.id) where
  event_status_other :
      (k : ℕ) (t : Table DomainEvent)
      → (id == k) ≡ false
      → event_status k (update_event id f t) ≡ event_status k t
  unfolding update_event
  event_status_other k [] differs = refl
  event_status_other k (row ∷ t) differs =
      ground (arith, same row.current, event_status_other k t differs)

  event_status_same :
      (status : ProcessingStatus) (t : Table DomainEvent)
      → ((e : DomainEvent) → (f e).processing_status ≡ status)
      → is_some (event_status id t) ≡ true
      → event_status id (update_event id f t) ≡ some status
  unfolding update_event
  event_status_same status [] g = λ e. absurd (cc)
  event_status_same status (row ∷ t) g = elim (Bool-cases (row.current.id == id)) [
    | inl hit ↦ rw (hit, same row.current, hit) λ e. ap some (g row.current)
    | inr miss ↦ rw (miss, miss) (event_status_same status t g)
  ]

-- How one dispatch ends: the event counts as processed, or as failed.
abbrev pub IsSettled : Option ProcessingStatus → ℤ → Type 0
IsSettled o n =
    ((o ≡ some ProcessingStatus.processed) × (n ≡ pos 1))
    ⊎ ((o ≡ some ProcessingStatus.failed) × (n ≡ pos 0))

module _ (env : Env) where
  pub dispatch-settles :
      (registry : Registry) (event : DomainEvent) (s : Session)
      → AreQuiet registry
      → is_some (event_status event.id s.events) ≡ true
      → (n : ℤ) × (s' : Session) × (catch
            (dispatch env registry event >> pure (pos 1))
            (λ e. pure (pos 0))
            s
          ≡ (ok n, s'))
        × IsSettled (event_status event.id s'.events) n
        × ((k : ℕ) → (event.id == k) ≡ false → event_status k s'.events ≡ event_status k s.events)
  unfolding dispatch mark_processed mark_failed handlers_for
  dispatch-settles registry event s quiet there =
      let handlers = handlers_for event.event_type registry in
      let payload = payload_of event in
      go (run_handlers handlers payload s) (
        run_handlers-events handlers payload s (
          All-append IsQuiet _ _ (registered-IsQuiet _ registry quiet)
            (registered-IsQuiet _ registry quiet)))
    where
      go :
          (x : Result (Unit {0}) × Session)
          → x.1.events ≡ s.events
          → (n : ℤ) × (s' : Session) × (catch
                (catch
                    ((λ (_ : Session). x) >> mark_processed env event.id)
                    (λ e. mark_failed event.id >> raise e)
                  >> pure (pos 1))
                (λ e. pure (pos 0))
                s
              ≡ (ok n, s'))
            × IsSettled (event_status event.id s'.events) n
            × ((k : ℕ)
                → (event.id == k) ≡ false
                → event_status k s'.events ≡ event_status k s.events)
      go (ok _, t) same = (
        pos 1,
        (mark_processed env event.id t).1,
        refl,
        inl (
          event_status_same event.id _ (λ e. refl) ProcessingStatus.processed t.events (λ e. refl)
              (rw same there),
          refl,
        ),
        λ k differs.
            event_status_other event.id _ (λ e. refl) k t.events differs ∙ ap (event_status k) same,
      )
      go (raised x, t) same = (
        pos 0,
        (mark_failed event.id t).1,
        refl,
        inr (
          event_status_same event.id _ (λ e. refl) ProcessingStatus.failed t.events (λ e. refl)
              (rw same there),
          refl,
        ),
        λ k differs.
            event_status_other event.id _ (λ e. refl) k t.events differs ∙ ap (event_status k) same,
      )
