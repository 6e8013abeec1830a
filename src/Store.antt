-- ===== src/Store.antt =====
-- apps/dashboard/internal/store: what the dashboard asks of its databases.
pub mod AuditQuery
pub mod CertQuery
