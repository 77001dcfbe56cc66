-- ===== src/Gmp.antt =====
-- internal/gmp: instant queries against Google Managed Prometheus.
pub mod Collect
pub mod Clients
pub mod Client
