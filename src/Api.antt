-- ===== src/Api.antt =====
-- internal/api: how errors, field masks and credentials cross the transport.
pub mod Status
pub mod UpdateMask
pub mod Plugins
pub mod Interceptor
