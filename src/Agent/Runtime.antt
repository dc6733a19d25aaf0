-- ===== src/Agent/Runtime.antt =====
-- The agent runtime (pkg/liaison/manager/agent/runtime).
pub mod Status
pub mod Types
pub mod Context
pub mod Events
pub mod Store
pub mod Cases
pub mod Consistency
pub mod Calls
