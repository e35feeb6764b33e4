-- ===== src/Persistence.antt =====
-- The database as a service method sees it: src/nexusops/db, src/nexusops/models and
-- src/nexusops/repositories.
pub mod Table
pub mod Models
pub mod Session
pub mod Queries
