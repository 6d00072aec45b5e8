-- ===== src/Config.antt =====
-- The parts of packages/foundation/src/config.
pub mod SyncSchedule
