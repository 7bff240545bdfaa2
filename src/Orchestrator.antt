-- ===== src/Orchestrator.antt =====
-- src/orchestrator: the plans of the agents.
pub mod Task
pub mod Plans
pub mod Template
pub mod Orchestrate
pub mod Render
pub mod Subagent
pub mod Serialize
