-- ===== src/Telemetry/Projection.antt =====
-- src/telemetry/projection.ts: the facts of one session record and the pairing state per session.
pub mod Facts
pub mod Steps
pub mod Ledger
pub mod Pairing
