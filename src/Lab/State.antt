-- ===== src/Lab/State.antt =====
-- src/latent_compass/lab/state.py: revisions of a diagnosis state and their replay.
pub mod Revision
pub mod Verify
pub mod Apply
pub mod Loading
pub mod Replay
pub mod Extend
pub mod Posterior
