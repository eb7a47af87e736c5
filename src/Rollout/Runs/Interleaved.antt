-- ===== src/Rollout/Runs/Interleaved.antt =====
-- The interleaved goroutines of a parallel group, in rollout/rollout.go.
pub mod Moves
pub mod Locked
pub mod Results
pub mod Collected
pub mod Progress
pub mod InOrder
