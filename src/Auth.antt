-- ===== src/Auth.antt =====
-- Credentials: internal/config/auth.go and internal/auth.
pub mod Tokens
pub mod Static
