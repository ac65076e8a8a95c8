-- ===== src/Tools.antt =====
-- The tools that the model may call: pkg/tools.
pub mod Registry
