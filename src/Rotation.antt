-- ===== src/Rotation.antt =====
-- control-plane/rotation: automatic rotation of vendor accounts on token exhaustion.
pub mod Models
pub mod Pool
pub mod Service
pub mod Detector
mod Examples
