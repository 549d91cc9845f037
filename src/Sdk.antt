-- ===== src/Sdk.antt =====
-- sdk: the client library.
pub mod Retry
