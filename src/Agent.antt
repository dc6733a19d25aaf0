-- ===== src/Agent.antt =====
-- The agent subsystem of the manager (pkg/liaison/manager/agent).
pub mod Tool
pub mod Runtime
pub mod Approvals
