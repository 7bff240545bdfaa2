-- ===== src/Agent.antt =====
-- src/orchestrator/agent_config.cpp: the agents and what each of them may do.
pub mod Config
pub mod Persona
