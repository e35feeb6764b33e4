-- ===== src/Warehousing.antt =====
-- src/nexusops/domain/warehouse/: transfers, receiving, picking, putaway and cycle counts.
pub mod Transfers
pub mod CycleCount
pub mod Inbound
pub mod Putaway
pub mod Picking
