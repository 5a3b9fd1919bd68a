-- ===== src/Seats.antt =====
-- control-plane/seats: authenticated seats that agents and their subagents share.
pub mod Pool
mod Examples
