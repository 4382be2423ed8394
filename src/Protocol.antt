-- ===== src/Protocol.antt =====
-- src/latent_compass/protocol.py: the pre-registered evaluation protocol.
pub mod Specs
pub mod Preregistration
pub mod Verdict
pub mod Score
pub mod Holdout
pub mod Loading
pub mod Grouping
pub mod Scoring
pub mod Continue
pub mod Binding
pub mod Race
pub mod Tests
pub mod Reload
pub mod Rebuilt
pub mod Returns
pub mod Grouped
pub mod Complete
