-- ===== src/Core/Exceptions.antt =====
-- src/nexusops/core/exceptions.py, and the exceptions of Python and SQLAlchemy that the code
-- raises or lets through. Message texts are left out; structured details are kept.
use supply_chain_execution.Common.{Option, ℕ}
use supply_chain_execution.Common.Int.{ℤ}
use supply_chain_execution.Core.Types.{ShipmentStatus}

pub data Error : Type 0 where
  not_found : ℕ → Error
  validation_error : Error
  concurrency_error : ℕ → ℤ → Error
  allocation_error : Error
  -- the SKU, what was requested, what is available, the warehouse
  insufficient_inventory : ℕ → ℤ → ℤ → Option ℕ → Error
  reservation_expired : Error
  -- the shipment, its state, the state that was asked for
  shipment_state_error : ℕ → ShipmentStatus → ShipmentStatus → Error
  -- the number of violations
  event_ordering_error : ℕ → Error
  workflow_error : Error
  routing_conflict : Error
  reconciliation_error : Error
  value_error : Error
  -- arithmetic on a value that is not a number
  type_error : Error
  -- `scalar_one_or_none` on a result of several rows
  multiple_results_found : Error
  -- `next` on an exhausted generator
  stop_iteration : Error
  -- a list index out of range
  index_error : Error
  zero_division_error : Error
  dependency_graph_error : Error
  -- whatever a handler that is not part of the program raises
  foreign : ℕ → Error
