-- ===== src/Transportation.antt =====
-- src/nexusops/domain/transportation/
pub mod Scheduling
pub mod Consolidation
pub mod Carriers
pub mod Routes
