-- ===== src/Routing.antt =====
-- src/latent_compass/lab/routing.py: routing advice and the budget pool.
pub mod Request
pub mod Decision
pub mod Evaluate
pub mod Pool
mod Tests
