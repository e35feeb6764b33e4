-- ===== src/Events/Bus.antt =====
-- src/nexusops/events/bus.py. Handlers and the Redis client are not the program's: a handler is any
-- action on the session, and the client any function that returns or raises.
pub mod Growth
pub mod Dispatch
pub mod Settling
pub mod Pending
pub mod Publish
use supply_chain_execution.Common.{
  Bool, List, Option, String, [], false, if◌then◌else◌, none, some, true, ℕ, ◌++◌, ◌∷◌,
}
use supply_chain_execution.Common.Int.{pos, ℤ, ◌+ℤ◌}
use supply_chain_execution.Core.Effect.{Result, catch, for_each, gets, ok, pure, raise, ◌>>=◌, ◌>>◌}
use supply_chain_execution.Core.Types.{EventType, same_event}
use supply_chain_execution.Persistence.Models.Events.{DomainEvent, Payload, ProcessingStatus}
use supply_chain_execution.Persistence.Queries.Events.{
  add_event, get_next_sequence, list_pending, mark_failed, mark_processed,
}
use supply_chain_execution.Persistence.Session.{Db, Env, draw_uuid}

pub record DomainEventPayload : Type 0 where
  pub event_type : EventType
  pub aggregate_type : String
  pub aggregate_id : ℕ
  pub payload : Payload
  pub occurred_at : ℤ

-- A subscription's key: an event type, or "*".
pub data Topic : Type 0 where
  of_type : EventType → Topic
  every : Topic

abbrev pub same_topic : Topic → Topic → Bool
same_topic (of_type a) (of_type b) = same_event a b
same_topic every every = true
same_topic _ _ = false

abbrev pub Handler : Type 0
Handler = DomainEventPayload → Db (Unit {0})

-- `_handlers`, in the order of its keys.
abbrev pub Registry : Type 0
Registry = List (Topic × List Handler)

-- `_handlers.get(topic)`
unfoldable pub registered : Topic → Registry → Option (List Handler)
registered topic [] = none
registered topic ((key, handlers) ∷ rest) =
    if same_topic key topic then some handlers else registered topic rest

abbrev pub or_empty : Option (List Handler) → List Handler
or_empty none = []
or_empty (some handlers) = handlers

-- `list.extend` on the list that the registry holds; a key that is absent stays so.
unfoldable pub extend_registered : Topic → List Handler → Registry → Registry
extend_registered topic more [] = []
extend_registered topic more ((key, handlers) ∷ rest) =
    if same_topic key topic
    then (key, handlers ++ more) ∷ rest
    else (key, handlers) ∷ extend_registered topic more rest

-- `subscribe`: `defaultdict(list)` makes the list of a new key.
unfoldable pub subscribe : Topic → Handler → Registry → Registry
subscribe topic handler registry = elim (registered topic registry) [
  | none ↦ registry ++ (topic, handler ∷ []) ∷ []
  | some handlers ↦ extend_registered topic (handler ∷ []) registry
]

-- The handlers that `dispatch` runs, and what the registry holds after it: it extends the list of
-- the event's type itself.
unfoldable pub handlers_for : EventType → Registry → List Handler
handlers_for kind registry =
    or_empty (registered (of_type kind) registry) ++ or_empty (registered every registry)

unfoldable pub after_dispatch : EventType → Registry → Registry
after_dispatch kind registry =
    extend_registered (of_type kind) (or_empty (registered every registry)) registry

abbrev pub RedisClient : Type 0
RedisClient = DomainEventPayload → Result (Unit {0})

-- A service's `event_bus`: none, or a bus with its Redis client.
abbrev pub EventBus : Type 0
EventBus = Option (Option RedisClient)

-- `_publish_to_stream`
unfoldable pub publish_to_stream : Option RedisClient → DomainEventPayload → Db (Unit {0})
publish_to_stream none event s = (ok tt, s)
publish_to_stream (some xadd) event s = (xadd event, s)

-- The row that `publish` stores.
abbrev pub new_event : ℕ → ℤ → DomainEventPayload → DomainEvent
new_event id seq event = record {
  id = id;
  event_type = event.event_type;
  aggregate_type = event.aggregate_type;
  aggregate_id = event.aggregate_id;
  sequence_number = seq;
  payload = event.payload;
  occurred_at = event.occurred_at;
  processed_at = none;
  processing_status = ProcessingStatus.pending;
  retry_count = pos 0;
}

-- `publish`
unfoldable pub publish : Env → Option RedisClient → DomainEventPayload → Db DomainEvent
publish env redis event = do
  seq ← gets (get_next_sequence event.aggregate_type event.aggregate_id)
  id ← draw_uuid env
  add_event (new_event id seq event)
  publish_to_stream redis event
  pure (new_event id seq event)

abbrev pub payload_of : DomainEvent → DomainEventPayload
payload_of e = record {
  event_type = e.event_type;
  aggregate_type = e.aggregate_type;
  aggregate_id = e.aggregate_id;
  payload = e.payload;
  occurred_at = e.occurred_at;
}

-- `for handler in handlers: await handler(payload)`
unfoldable pub run_handlers : List Handler → DomainEventPayload → Db (Unit {0})
run_handlers handlers payload = for_each (λ (h : Handler) (acc : Unit {0}). h payload) handlers tt

-- `dispatch`, for the registry that it finds; `after_dispatch` is the registry that it leaves.
unfoldable pub dispatch : Env → Registry → DomainEvent → Db (Unit {0})
dispatch env registry event =
    catch
      (run_handlers (handlers_for event.event_type registry) (payload_of event)
        >> mark_processed env event.id)
      λ e. mark_failed event.id >> raise e

-- The loop of `process_pending`: each event finds the registry that the one before it left.
unfoldable pub process_events : Env → Registry → List DomainEvent → ℤ → Db (Registry × ℤ)
process_events env registry [] count = pure (registry, count)
process_events env registry (event ∷ events) count = do
  more ← catch (dispatch env registry event >> pure (pos 1)) λ e. pure (pos 0)
  process_events env (after_dispatch event.event_type registry) events (count +ℤ more)

-- `process_pending`
unfoldable pub process_pending : Env → Registry → ℕ → Db (Registry × ℤ)
process_pending env registry limit = do
  events ← gets (list_pending limit)
  process_events env registry events (pos 0)
