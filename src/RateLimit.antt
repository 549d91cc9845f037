-- ===== src/RateLimit.antt =====
-- internal/ratelimiter: per-client limits.
pub mod Concurrency
pub mod Limiter
pub mod Caller
