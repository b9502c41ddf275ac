-- ===== src/Examples.antt =====
-- The concrete stores, and the examples at which the theorems are applied.
pub mod Stores
pub mod Limits
pub mod Clients
pub mod Logins
pub mod Searches
pub mod Chunks
pub mod Jobs
pub mod Routes
pub mod Agents
