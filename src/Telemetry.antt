-- ===== src/Telemetry.antt =====
-- The telemetry pipeline of src/telemetry: capture, projection, durable queue and reporter.
pub mod Event
pub mod Settings
pub mod Projection
pub mod Queue
pub mod Reporter
pub mod Collector
