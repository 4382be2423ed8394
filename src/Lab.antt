-- ===== src/Lab.antt =====
-- src/latent_compass/lab: the active-diagnosis lab.
pub mod Dict
pub mod Model
pub mod State
pub mod Migration
pub mod Memory
pub mod Planner
mod Tests
