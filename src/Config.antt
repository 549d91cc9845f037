-- ===== src/Config.antt =====
-- internal/config: the settings, and what is refused of them.
pub mod Ports
pub mod Validate
pub mod Diagnostics
pub mod Leaves
pub mod Schema
pub mod Document
pub mod Env
pub mod Merge
pub mod Load
