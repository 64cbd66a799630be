-- ===== src/Collector.antt =====
-- internal/collector: the loop that moves leased messages into the telemetry table.
pub mod Store
pub mod Cycle
pub mod HttpClient
pub mod Table
pub mod Persisted
pub mod Unique
pub mod Delivered
