-- ===== src/Rollout.antt =====
-- rollout/: the rollout spec, the actions on objects, and the runner of a rollout.
pub mod Types
pub mod Durations
pub mod Config
pub mod Actions
pub mod Checks
pub mod Runner
pub mod Runs
