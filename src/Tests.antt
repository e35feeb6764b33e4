-- ===== src/Tests.antt =====
-- The theorems at concrete inputs.
mod Samples
mod CoreTests
mod InventoryTests
mod EventsTests
mod OrdersTests
mod WarehousingTests
mod TransportationTests
mod FulfillmentTests
mod WorkflowTests
mod OptimizationTests
