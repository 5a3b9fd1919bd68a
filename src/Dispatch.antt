-- ===== src/Dispatch.antt =====
-- herdmaster/src/herdmaster/dispatch and the task table of herdmaster/src/herdmaster/db: the queue of
-- tasks that agents claim.
pub mod Tasks
pub mod Queue
mod Examples
