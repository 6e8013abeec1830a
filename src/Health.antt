-- ===== src/Health.antt =====
-- apps/dashboard/internal/health: the services that the dashboard watches, and their poller.
pub mod Services
pub mod Poller
