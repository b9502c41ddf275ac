-- ===== src/Agent.antt =====
-- src/agent: the state of the agent, its prompts, its nodes and its two runs.
pub mod State
pub mod Prompts
pub mod Nodes
pub mod Stream
