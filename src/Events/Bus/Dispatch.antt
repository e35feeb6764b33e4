-- ===== src/Events/Bus/Dispatch.antt =====
-- `dispatch` and `process_pending` (events/bus.py) under handlers that return or raise.
use supply_chain_execution.Common.{Bool-cases, [], arith, inl, inr, refl, ℕ, ◌==◌, ◌∷◌, ◌≡◌}
use supply_chain_execution.Core.Effect.{ok, raised}
use supply_chain_execution.Core.Exceptions.{Error}
use supply_chain_execution.Events.Bus.{Registry, dispatch, handlers_for, payload_of, run_handlers}
use supply_chain_execution.Inventory.Stock.{AllObjects}
use supply_chain_execution.Persistence.Models.Events.{DomainEvent, ProcessingStatus}
use supply_chain_execution.Persistence.Queries.Events.{mark_failed, mark_processed, update_event}
use supply_chain_execution.Persistence.Session.{Env, Session}
use supply_chain_execution.Persistence.Table.{Table}

-- An event is settled by a dispatch.
abbrev pub Settled : ℕ → ProcessingStatus → Session → Type 0
Settled id status s =
    AllObjects (λ (e : DomainEvent). e.id ≡ id → e.processing_status ≡ status) s.events

update_event-AllObjects :
    (P : DomainEvent → Type 0) (id : ℕ) (f : DomainEvent → DomainEvent) (t : Table DomainEvent)
    → ((e : DomainEvent) → (f e).id ≡ e.id)
    → ((e : DomainEvent) → P (f e))
    → AllObjects (λ e. e.id ≡ id → P e) (update_event id f t)
unfolding update_event
update_event-AllObjects P id f [] same p = tt
update_event-AllObjects P id f (row ∷ t) same p = elim (Bool-cases (row.current.id == id)) [
  | inl hit ↦ rw hit (λ e. p row.current, update_event-AllObjects P id f t same p)
  | inr miss ↦
      rw miss (λ e. absurd (ground (arith, miss, e)), update_event-AllObjects P id f t same p)
]

-- If every handler of an event returns, `dispatch` returns and the event is processed; if one
-- raises, `dispatch` raises its error, and the event is failed.
pub dispatch-outcome :
    (env : Env) (registry : Registry) (event : DomainEvent) (s : Session)
    → (((run_handlers (handlers_for event.event_type registry) (payload_of event) s).0 ≡ ok tt
          → ((dispatch env registry event s).0 ≡ ok tt)
            × Settled event.id ProcessingStatus.processed (dispatch env registry event s).1)
        × ((x : Error)
            → (run_handlers (handlers_for event.event_type registry) (payload_of event) s).0
              ≡ raised x
            → ((dispatch env registry event s).0 ≡ raised x)
              × Settled event.id ProcessingStatus.failed (dispatch env registry event s).1))
unfolding dispatch mark_processed mark_failed
dispatch-outcome env registry event s = (
  (λ e. rw e (
    refl,
    update_event-AllObjects (λ e. e.processing_status ≡ ProcessingStatus.processed) event.id _ _
        (λ e. refl) (λ e. refl),
  )),
  λ x e. rw e (
    refl,
    update_event-AllObjects (λ e. e.processing_status ≡ ProcessingStatus.failed) event.id _ _
        (λ e. refl) (λ e. refl),
  ),
)
