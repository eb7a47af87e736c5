-- ===== src/Rollout/Runner.antt =====
-- rollout/rollout.go: the runner. A rollout's state holds the world, the rendered objects (whose
-- contents the actions may change in place), the feedback, if there is any, and the metrics.
pub mod Objects
pub mod Steps
pub mod Execution
pub mod Goroutines
unfoldable pub use Objects.*
unfoldable pub use Steps.*
unfoldable pub use Execution.*
