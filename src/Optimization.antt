-- ===== src/Optimization.antt =====
-- src/nexusops/domain/optimization/
pub mod Placement
pub mod Cost
