-- ===== src/Rollout/Runs.antt =====
-- What a run of rollout/rollout.go does: theorems about the runner.
pub mod Nesting
pub mod Sequence
pub mod Parallel
pub mod Interleaved
pub mod Groups
