-- ===== src/Telemetry/Collector.antt =====
-- src/telemetry/backend.ts: the collector: bindings, capture and the control surface.
pub mod Capture
pub mod Control
pub mod Isolation
