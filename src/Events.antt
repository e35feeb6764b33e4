-- ===== src/Events.antt =====
-- src/nexusops/events/: the event bus, the ordering validator and the replay.
pub mod Bus
pub mod Ordering
pub mod Replay
