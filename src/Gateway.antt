-- ===== src/Gateway.antt =====
-- apps/dashboard/internal/gateway/admin_client.go: the client of the gateway's admin API.
pub mod Redact
pub mod Client
