-- ===== src/Inventory.antt =====
-- src/nexusops/domain/inventory: allocation, the life of reservations, and reconciliation.
pub mod Stock
pub mod Allocation
pub mod Reservations
pub mod Reconciliation
