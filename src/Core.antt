-- ===== src/Core.antt =====
-- src/core: the Redis cache helpers and the authentication primitives.
pub mod Redis
pub mod Security
