-- ===== src/Core.antt =====
-- src/nexusops/core: the shared types and errors, the effects of a service method, the business
-- rule validators and the workflow orchestrator.
pub mod Types
pub mod Quantities
pub mod Exceptions
pub mod Effect
pub mod Float
pub mod Validators
pub mod Workflow
pub mod Dependencies
