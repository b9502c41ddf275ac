-- ===== src/Cache.antt =====
-- src/cache: the rate limiter.
pub mod SortedSet
pub mod RateLimit
