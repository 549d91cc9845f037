-- ===== src/License.antt =====
-- internal/license, and the claims of internal/core/domain.go: what an installation may do.
pub mod Claims
pub mod Gate
