-- ===== src/Api.antt =====
-- The values that cross the program's boundary: messages of the Cloud Monitoring API as the
-- getters of the generated code show them, Prometheus metric families, floats and moments.
pub mod Float
pub mod Time
pub mod Monitoring
pub mod Prom
pub mod Context
pub mod Sdk
