-- ===== src/Fulfillment.antt =====
-- src/nexusops/domain/fulfillment/: routing, planning, shipments, and the workflow over them.
pub mod Routing
pub mod Planning
pub mod Shipments
pub mod Generation
pub mod Workflow
