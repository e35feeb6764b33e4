-- ===== src/Events/Ordering.antt =====
-- src/nexusops/events/ordering.py
pub mod Sequence
pub mod Publish
use supply_chain_execution.Common.{List, String, [], if◌then◌else◌, length, not, ℕ, ◌==◌, ◌∷◌}
use supply_chain_execution.Common.Int.{eqb_ℤ, pos, ℤ, ◌+ℤ◌}
use supply_chain_execution.Core.Effect.{gets, raise_if, ◌>>=◌, ◌>>◌}
use supply_chain_execution.Core.Exceptions.{event_ordering_error}
use supply_chain_execution.Persistence.Models.Events.{DomainEvent}
use supply_chain_execution.Persistence.Queries.Events.{list_for_aggregate}
use supply_chain_execution.Persistence.Session.{Db, Session}

pub record OrderingViolation : Type 0 where
  pub aggregate_type : String
  pub aggregate_id : ℕ
  pub expected_sequence : ℤ
  pub actual_sequence : ℤ
  pub event_id : ℕ

-- The loop of `validate_aggregate`.
unfoldable pub violations_from : String → ℕ → ℤ → List DomainEvent → List OrderingViolation
violations_from kind id expected [] = []
violations_from kind id expected (e ∷ es) =
    let rest = violations_from kind id (e.sequence_number +ℤ pos 1) es in
    if eqb_ℤ e.sequence_number expected
    then rest
    else record {
      aggregate_type = kind;
      aggregate_id = id;
      expected_sequence = expected;
      actual_sequence = e.sequence_number;
      event_id = e.id;
    }
      ∷ rest

unfoldable pub validate_aggregate : String → ℕ → Session → List OrderingViolation
validate_aggregate kind id s = violations_from kind id (pos 1) (list_for_aggregate kind id s)

unfoldable pub validate_and_raise : String → ℕ → Db (Unit {0})
validate_and_raise kind id = do
  violations ← gets (validate_aggregate kind id)
  raise_if (not (length violations == 0)) (event_ordering_error (length violations))

abbrev pub last_sequence : ℤ → List DomainEvent → ℤ
last_sequence n [] = n
last_sequence n (e ∷ es) = last_sequence e.sequence_number es

unfoldable pub get_expected_next_sequence : String → ℕ → Session → ℤ
get_expected_next_sequence kind id s = last_sequence (pos 0) (list_for_aggregate kind id s) +ℤ pos 1
