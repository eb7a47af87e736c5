-- ===== src/Rollout/Checks.antt =====
-- rollout/checks/: the checks that decide whether a step of a rollout has succeeded.
mod Defs
mod Runner
pub mod Comparing
pub mod Values
pub mod Verdict
pub mod Failures
pub mod Registry
pub mod JobOom
unfoldable pub use Defs.*
unfoldable pub use Runner.*
