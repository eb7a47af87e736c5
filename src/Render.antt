-- ===== src/Render.antt =====
-- The renderers of render/: what makes the objects and the rollout that the runner works on.
pub mod Texts
pub mod Jsonnet
pub mod File
