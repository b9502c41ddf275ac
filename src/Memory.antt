-- ===== src/Memory.antt =====
-- src/memory: what the agent remembers of a conversation.
pub mod ShortTerm
pub mod LongTerm
