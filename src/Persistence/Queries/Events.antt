-- ===== src/Persistence/Queries/Events.antt =====
-- src/nexusops/repositories/events.py and audit.py
use text.Mathlib.Text.{◌==◌ as str_eq}
use mathlib.Core.Option
use supply_chain_execution.Common.{
  Bool, List, String, [], if◌then◌else◌, some, sorted, take, ℕ, ◌&&◌, ◌+◌, ◌==◌, ◌∷◌,
}
use supply_chain_execution.Common.Int.{ltb_ℤ, max_ℤ, pos, ℤ, ◌+ℤ◌}
use supply_chain_execution.Core.Effect.{ok}
use supply_chain_execution.Persistence.Models.Events.{
  AuditEntry, DomainEvent, ProcessingStatus, is_pending,
}
use supply_chain_execution.Persistence.Session.{Db, Env, Session, flush_all}
use supply_chain_execution.Persistence.Table.{Table, add, select, select_columns}

abbrev pub event_id : DomainEvent → ℕ
event_id e = e.id

abbrev pub is_of_aggregate : String → ℕ → DomainEvent → Bool
is_of_aggregate kind id e = str_eq e.aggregate_type kind && (e.aggregate_id == id)

-- The maximum of a column, and 0 for no rows.
unfoldable pub max_sequence : List DomainEvent → ℤ
max_sequence [] = pos 0
max_sequence (e ∷ []) = e.sequence_number
max_sequence (e ∷ e' ∷ es) = max_ℤ e.sequence_number (max_sequence (e' ∷ es))

unfoldable pub get_next_sequence : String → ℕ → Session → ℤ
get_next_sequence kind id s =
    max_sequence (select_columns (is_of_aggregate kind id) s.events) +ℤ pos 1

abbrev pub earlier_sequence : DomainEvent → DomainEvent → Bool
earlier_sequence a b = ltb_ℤ a.sequence_number b.sequence_number

abbrev pub occurred_earlier : DomainEvent → DomainEvent → Bool
occurred_earlier a b = ltb_ℤ a.occurred_at b.occurred_at

unfoldable pub list_for_aggregate : String → ℕ → Session → List DomainEvent
list_for_aggregate kind id s = sorted earlier_sequence (select (is_of_aggregate kind id) s.events)

unfoldable pub list_pending : ℕ → Session → List DomainEvent
list_pending limit s =
    take limit (sorted occurred_earlier (select (λ e. is_pending e.processing_status) s.events))

unfoldable pub add_event : DomainEvent → Db (Unit {0})
add_event e s = (ok tt, flush_all (record s { events = add e s.events }))

unfoldable pub add_audit : AuditEntry → Db (Unit {0})
add_audit a s = (ok tt, flush_all (record s { audits = add a s.audits }))

-- An UPDATE statement by primary key: it writes the row, and the session's object with it.
unfoldable pub update_event :
    ℕ → (DomainEvent → DomainEvent) → Table DomainEvent → Table DomainEvent
update_event id f [] = []
update_event id f (row ∷ t) =
    (if event_id row.current == id
      then record { stored = Option.map f row.stored; current = f row.current }
      else row)
    ∷ update_event id f t

unfoldable pub mark_processed : Env → ℕ → Db (Unit {0})
mark_processed env id s =
    let now = env.now s.draws in
    (
      ok tt,
      record s {
        events =
            update_event id
              (λ e. record e {
                processing_status = ProcessingStatus.processed;
                processed_at = some now;
              })
              s.events;
        draws = s.draws + 1;
      },
    )

unfoldable pub mark_failed : ℕ → Db (Unit {0})
mark_failed id s = (
  ok tt,
  record s {
    events =
        update_event id
          (λ e. record e {
            processing_status = ProcessingStatus.failed;
            retry_count = e.retry_count +ℤ pos 1;
          })
          s.events;
  },
)
