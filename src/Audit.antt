-- ===== src/Audit.antt =====
-- internal/adapters/audit: the queue in front of the audit log, and the log's partitions.
pub mod Worker
pub mod Partitions
pub mod Store
