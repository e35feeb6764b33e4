-- ===== src/Persistence/Models.antt =====
-- The ORM models of src/nexusops/models. A record has the columns that the modelled code reads
-- or writes; an id is the number of a UUID, a datetime its microseconds, and a relationship to
-- lines is a list in the parent.
pub mod Inventory
pub mod Warehouse
pub mod Procurement
pub mod Transport
pub mod Events
pub mod Fulfillment
