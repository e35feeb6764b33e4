-- ===== src/Procurement.antt =====
-- src/nexusops/domain/procurement/: the purchase order lifecycle.
pub mod Orders
