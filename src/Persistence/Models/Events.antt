-- ===== src/Persistence/Models/Events.antt =====
-- src/nexusops/models/events.py and models/audit.py, with the payloads of events/schemas.py.
use text.Mathlib.Text.{◌==◌ as str_eq}
use supply_chain_execution.Common.{
  Bool, List, Option, String, [], false, if◌then◌else◌, true, ℕ, ◌∷◌,
}
use supply_chain_execution.Common.Int.{ℤ}
use supply_chain_execution.Core.Types.{EventType}

-- A JSON value of a payload. The program's payloads are flat.
pub data Json : Type 0 where
  null : Json
  flag : Bool → Json
  number : ℤ → Json
  str : String → Json
  uuid : ℕ → Json

abbrev pub Payload : Type 0
Payload = List (String × Json)

-- `payload.get(key, default)`
unfoldable pub payload_get : String → Json → Payload → Json
payload_get key default [] = default
payload_get key default ((k, v) ∷ rest) = if str_eq k key then v else payload_get key default rest

pub data ProcessingStatus : Type 0 where
  pending processed failed : ProcessingStatus

abbrev pub is_pending : ProcessingStatus → Bool
is_pending ProcessingStatus.pending = true
is_pending ProcessingStatus.processed = false
is_pending ProcessingStatus.failed = false

pub record DomainEvent : Type 0 where
  pub id : ℕ
  pub event_type : EventType
  pub aggregate_type : String
  pub aggregate_id : ℕ
  pub sequence_number : ℤ
  pub payload : Payload
  pub occurred_at : ℤ
  pub processed_at : Option ℤ
  pub processing_status : ProcessingStatus
  pub retry_count : ℤ

-- An audit entry of an inventory change: the SKU, the warehouse, and `on_hand` before and after.
pub record AuditEntry : Type 0 where
  pub entity_id : ℕ
  pub warehouse_id : ℕ
  pub before : ℤ
  pub after : ℤ
