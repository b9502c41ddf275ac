-- ===== src/Llm.antt =====
-- src/llm/client.py: the process-local cache and the two cached clients.
pub mod Lru
pub mod Reads
pub mod Holding
pub mod Embedding
pub mod Completion
