-- ===== src/Planner.antt =====
-- herdmaster/src/herdmaster/project: the estimate of a project by its tasks.
pub mod Eta
pub mod Order
mod Examples
