-- ===== src/Scheduler.antt =====
-- control-plane/scheduler: quota ledger, backoff policy and quota-aware admission.
pub mod Reals
pub mod Backoff
pub mod Quota
pub mod Admission
mod Examples
