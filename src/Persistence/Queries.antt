-- ===== src/Persistence/Queries.antt =====
-- The repositories of src/nexusops/repositories: their queries, and `BaseRepository`'s methods at
-- each model.
pub mod Inventory
pub mod Warehouse
pub mod Procurement
pub mod Transport
pub mod Events
pub mod Fulfillment
