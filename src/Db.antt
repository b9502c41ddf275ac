-- ===== src/Db.antt =====
-- src/db and src/core/db.py: the tables, sessions with their transactions, and the repositories.
pub mod Models
pub mod Session
pub mod Users
pub mod Documents
pub mod Conversations
