-- ===== src/Events/Bus/Publish.antt =====
-- The session that `publish` (events/bus.py) leaves, whether the stream takes the event or not.
use supply_chain_execution.Common.{Option, none, refl, some, ◌+◌, ◌≡◌}
use supply_chain_execution.Core.Effect.{pure, resume_inv}
use supply_chain_execution.Events.Bus.{
  DomainEventPayload, RedisClient, new_event, publish, publish_to_stream,
}
use supply_chain_execution.Persistence.Queries.Events.{add_event, get_next_sequence}
use supply_chain_execution.Persistence.Session.{Env, Session, flush_all}
use supply_chain_execution.Persistence.Table.{add}

publish_to_stream_state :
    (redis : Option RedisClient) (event : DomainEventPayload) (s : Session)
    → (publish_to_stream redis event s).1 ≡ s
unfolding publish_to_stream
publish_to_stream_state none event s = refl
publish_to_stream_state (some xadd) event s = refl

-- The event is stored and the session flushed before the stream is asked.
pub publish_state :
    (env : Env) (redis : Option RedisClient) (event : DomainEventPayload) (s : Session)
    → (publish env redis event s).1
      ≡ flush_all (record s {
        events =
            add
              (new_event
                (env.uuid4 s.draws)
                (get_next_sequence event.aggregate_type event.aggregate_id s)
                event)
              s.events;
        draws = s.draws + 1;
      })
unfolding publish add_event
publish_state env redis event s =
    let seq = get_next_sequence event.aggregate_type event.aggregate_id s in
    let x = new_event (env.uuid4 s.draws) seq event in
    let added : Session = flush_all (record s { events = add x s.events; draws = s.draws + 1 }) in
    let (r, s') = publish_to_stream redis event added in
    let same : s' ≡ added = publish_to_stream_state redis event added in
    resume_inv (λ z. z ≡ added) r (λ _. pure x) s' same λ a e. same
