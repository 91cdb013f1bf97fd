-- ===== src/Agent.antt =====
-- The agent of agent/src/agent_app, as far as it does not call the graph's library.
pub mod Checkpoint
pub mod Prefix
pub mod Selection
pub mod Config
pub mod Models
pub mod Default
pub mod Tracing
pub mod Tools
pub mod Graph
