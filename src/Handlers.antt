-- ===== src/Handlers.antt =====
-- apps/dashboard/internal/handlers: what the dashboard answers to a request.
pub mod Login
pub mod Bulk
pub mod Audit
pub mod Keys
pub mod Certs
