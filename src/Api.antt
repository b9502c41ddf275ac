-- ===== src/Api.antt =====
-- src/api: the request handlers.
pub mod Auth
pub mod Deps
pub mod Conversations
pub mod Chat
pub mod Files
