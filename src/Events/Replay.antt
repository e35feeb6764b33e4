-- ===== src/Events/Replay.antt =====
-- src/nexusops/events/replay.py. Projection handlers are parameters.
pub mod Outcome
pub mod Network
use mathlib.Core.Option
use supply_chain_execution.Common.{
  Bool, List, Option, String, [], any, false, filter, if◌then◌else◌, length, none, not, some, true,
  ℕ, ◌++◌, ◌+◌, ◌==◌, ◌∷◌,
}
use supply_chain_execution.Common.Int.{leb_ℤ, max_ℤ, pos, ℤ, ◌+ℤ◌, ◌-ℤ◌}
use supply_chain_execution.Core.Effect.{catch, for_each, gets, or_raise, pure, raise, ◌>>=◌, ◌>>◌}
use supply_chain_execution.Core.Exceptions.{Error, event_ordering_error, type_error}
use supply_chain_execution.Core.Types.{EventType, same_event}
use supply_chain_execution.Events.Ordering.{validate_and_raise}
use supply_chain_execution.Persistence.Models.Events.{DomainEvent, Json, Payload, payload_get, uuid}
use supply_chain_execution.Persistence.Queries.Events.{
  is_of_aggregate, list_for_aggregate, list_pending,
}
use supply_chain_execution.Persistence.Session.{Db, Env, draw_now}

abbrev pub ProjectionHandler : Type 0
ProjectionHandler = DomainEvent → Db (Unit {0})

-- `_projections`, as a lookup.
abbrev pub Projections : Type 0
Projections = EventType → Option ProjectionHandler

abbrev pub register_projection : EventType → ProjectionHandler → Projections → Projections
register_projection kind handler projections k =
    if same_event k kind then some handler else projections k

-- The counters of a result; an error is noted by the event's id, or as an ordering error.
pub data ReplayError : Type 0 where
  ordering : ReplayError
  of_event : ℕ → ReplayError

pub record ReplayResult : Type 0 where
  pub events_replayed : ℕ
  pub errors : List ReplayError
  pub completed : Bool

abbrev pub replayed_one : ReplayResult → ReplayResult
replayed_one r = record r { events_replayed = r.events_replayed + 1 }

abbrev pub failed_one : ℕ → ReplayResult → ReplayResult
failed_one id r = record r { errors = r.errors ++ of_event id ∷ [] }

-- The handler of an event, if its type has one.
unfoldable pub replay_event :
    Option ProjectionHandler → DomainEvent → ReplayResult → Db ReplayResult
replay_event none e r = pure r
replay_event (some handler) e r =
    catch (handler e >> pure (replayed_one r)) λ x. pure (failed_one e.id r)

unfoldable pub replay_events : Projections → List DomainEvent → ReplayResult → Db ReplayResult
replay_events projections es r =
    for_each
      (λ (e : DomainEvent) (acc : ReplayResult). replay_event (projections e.event_type) e acc) es r

abbrev pub nothing_replayed : ReplayResult
nothing_replayed = record { events_replayed = 0; errors = []; completed = false }

abbrev pub from_sequence_on : ℤ → DomainEvent → Bool
from_sequence_on n e = leb_ℤ n e.sequence_number

abbrev pub is_ordering_error : Error → Bool
is_ordering_error e = elim e [ event_ordering_error _ ↦ true | _ ↦ false ]

-- What follows the ordering check of `replay_aggregate`.
unfoldable pub replay_from : Env → Projections → String → ℕ → ℤ → Db ReplayResult
replay_from env projections kind id n = do
  es ← gets (list_for_aggregate kind id)
  r ← replay_events projections (filter (from_sequence_on n) es) nothing_replayed
  draw_now env
  pure (record r { completed = true })

unfoldable pub replay_aggregate : Env → Projections → String → ℕ → ℤ → Db ReplayResult
replay_aggregate env projections kind id n = do
  draw_now env
  valid ←
      catch (validate_and_raise kind id >> pure true)
        λ e. if is_ordering_error e then pure false else raise e
  if valid
      then replay_from env projections kind id n
      else pure (record nothing_replayed { errors = ordering ∷ [] })

pub record ReplayStats : Type 0 where
  pub total_aggregates : ℕ
  pub total_events : ℕ
  pub failed_aggregates : ℕ
  pub results : List ReplayResult

abbrev pub has_key_of : DomainEvent → List (String × ℕ) → Bool
has_key_of e keys = any (λ (k : String × ℕ). is_of_aggregate k.0 k.1 e) keys

-- The keys of the grouping dictionary, in order of first occurrence.
unfoldable pub group_keys : List DomainEvent → List (String × ℕ) → List (String × ℕ)
group_keys [] keys = keys
group_keys (e ∷ es) keys =
    group_keys es
      (if has_key_of e keys then keys else keys ++ (e.aggregate_type, e.aggregate_id) ∷ [])

unfoldable pub replay_group : Env → Projections → String × ℕ → ReplayStats → Db ReplayStats
replay_group env projections key stats = do
  r ← replay_aggregate env projections key.0 key.1 (pos 1)
  pure (record stats {
    results = stats.results ++ r ∷ [];
    total_events = stats.total_events + r.events_replayed;
    failed_aggregates = stats.failed_aggregates + (if length r.errors == 0 then 0 else 1);
  })

unfoldable pub replay_pending_events : Env → Projections → ℕ → Db ReplayStats
replay_pending_events env projections limit = do
  es ← gets (list_pending limit)
  for_each (replay_group env projections) (group_keys es []) (record {
    total_aggregates = length (group_keys es []);
    total_events = 0;
    failed_aggregates = 0;
    results = [];
  })

pub record Projection : Type 0 where
  pub on_hand : ℤ
  pub reserved : ℤ
  pub allocated : ℤ

-- A payload's number: Python's truth values are numbers too.
abbrev pub number_of : Json → Option ℤ
number_of Json.null = none
number_of (Json.flag b) = some (if b then pos 1 else pos 0)
number_of (Json.number n) = some n
number_of (Json.str x) = none
number_of (Json.uuid x) = none

abbrev pub names_warehouse : ℕ → Payload → Bool
names_warehouse w p = elim (payload_get "warehouse_id" Json.null p) [ uuid x ↦ x == w | _ ↦ false ]

-- What one event adds to the three numbers; none where the source's addition raises. An adjustment
-- counts whatever its warehouse.
unfoldable pub project : ℕ → DomainEvent → Projection → Option Projection
project w e p =
    if same_event e.event_type EventType.inventory_adjusted
    then Option.map (λ (n : ℤ). record p { on_hand = p.on_hand +ℤ n })
        (number_of (payload_get "quantity_delta" (Json.number (pos 0)) e.payload))
    else if not (names_warehouse w e.payload)
    then some p
    else if same_event e.event_type EventType.inventory_reserved
    then Option.map (λ (n : ℤ). record p { reserved = p.reserved +ℤ n })
        (number_of (payload_get "quantity" (Json.number (pos 0)) e.payload))
    else if same_event e.event_type EventType.allocation_created
    then Option.map (λ (n : ℤ). record p { allocated = p.allocated +ℤ n })
        (number_of (payload_get "quantity" (Json.number (pos 0)) e.payload))
    else some p

unfoldable pub project_all : ℕ → List DomainEvent → Projection → Option Projection
project_all w [] p = some p
project_all w (e ∷ es) p = Option.bind (project w e p) (λ (p' : Projection). project_all w es p')

abbrev pub projected_available : Projection → ℤ
projected_available p = max_ℤ (pos 0) (p.on_hand -ℤ p.reserved -ℤ p.allocated)

-- The projection and the number of events.
unfoldable pub rebuild_inventory_projection : ℕ → ℕ → Db (Projection × ℕ)
rebuild_inventory_projection w sku = do
  es ← gets (list_for_aggregate "inventory" sku)
  p ←
      or_raise (project_all w es (record { on_hand = pos 0; reserved = pos 0; allocated = pos 0 }))
        type_error
  pure (p, length es)
