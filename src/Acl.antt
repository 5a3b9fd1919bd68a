-- ===== src/Acl.antt =====
-- herdmaster/src/herdmaster/acl: which agent may send to which.
pub mod Engine
mod Examples
