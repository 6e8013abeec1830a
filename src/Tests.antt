-- ===== src/Tests.antt =====
-- The theorems at concrete inputs, and runs of the definitions.
mod Gate
mod Gateway
mod Keys
mod Health
mod Certs
mod Config
mod Metrics
mod Flows
mod Sessions
mod Login
mod Ending
mod L3
mod Client
mod Bulk
mod Audit
mod Store
