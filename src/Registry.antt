-- ===== src/Registry.antt =====
-- internal/adapters/registry: where plugins come from.
pub mod Cache
pub mod Query
pub mod Config
pub mod Backend
pub mod Plugins
pub mod Binaries
