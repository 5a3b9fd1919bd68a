-- ===== src/Orchestration.antt =====
-- Workflows: the steps, their order, their run.
pub mod Step
pub mod Workflow
pub mod Order
pub mod Downstream
pub mod Run
mod Examples
