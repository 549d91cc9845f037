-- ===== src/Core.antt =====
-- internal/core without the worker pool: the domain errors, plugin names, and the service.
pub mod Errors
pub mod Names
pub mod Domain
pub mod Service
