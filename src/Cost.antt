-- ===== src/Cost.antt =====
-- apps/api/src/features/cost-tracking: what a policy costs.
pub mod Calendar
pub mod Money
pub mod Entry
pub mod Billing
pub mod Schedule
pub mod Tracking
