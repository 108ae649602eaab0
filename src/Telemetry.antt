-- ===== src/Telemetry.antt =====
-- src/telemetry and include/jellybean/telemetry.
pub mod Histogram
pub mod Server
pub mod Report
