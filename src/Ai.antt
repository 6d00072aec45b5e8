-- ===== src/Ai.antt =====
-- The pure parts of packages/foundation/src/ai.
pub mod Budget
