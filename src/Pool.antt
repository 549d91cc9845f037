-- ===== src/Pool.antt =====
-- internal/core/pool.go: bounded concurrency around the registry and the plugins.
pub mod Config
pub mod Limiter
pub mod Jobs
pub mod Retry
