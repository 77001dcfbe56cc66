-- ===== src/Collector.antt =====
-- internal/collector: queries Cloud Monitoring and converts time series into metric families.
pub mod Clients
pub mod Params
pub mod Request
pub mod Naming
pub mod Convert
pub mod Descriptor
pub mod Histogram
pub mod Collect
