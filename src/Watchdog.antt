-- ===== src/Watchdog.antt =====
-- herdmaster/src/herdmaster/watchdog: the health of the agents and their recovery.
pub mod Agents
pub mod Recovery
pub mod Engine
pub mod Watch
mod Examples
