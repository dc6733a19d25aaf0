-- ===== src/Agent/Tool.antt =====
-- pkg/liaison/manager/agent/tool: the tools of the agent, their registry and the engine.
pub mod Types
pub mod Registry
pub mod Names
pub mod Validation
pub mod Catalog
pub mod Engine
pub mod Gate
pub mod Disclosure
