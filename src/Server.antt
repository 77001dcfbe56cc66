-- ===== src/Server.antt =====
-- cmd/server/main.go: the process around the two handlers.
pub mod Config
pub mod Factory
pub mod Healthcheck
pub mod Life
pub mod Logger
pub mod Main
pub mod Shutdown
pub mod Wiring
