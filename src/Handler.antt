-- ===== src/Handler.antt =====
-- internal/handler: the HTTP handlers.
pub mod Gate
pub mod GmpError
pub mod GmpMetrics
pub mod GmpRequest
pub mod Http
pub mod Limits
pub mod Metrics
pub mod Request
pub mod MapError
