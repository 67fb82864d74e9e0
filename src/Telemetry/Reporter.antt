-- ===== src/Telemetry/Reporter.antt =====
-- src/telemetry/reporter.ts: the batch reporter. `Pipeline` is its state and its services, `Drain`
-- the delivery of batches, `Control` what its callers drive.
pub mod Pipeline
pub mod Drain
pub mod Loop
pub mod Control
pub mod Modes
pub mod Recovery
pub mod Safety
pub mod Answers
pub mod Delivery
pub mod Rounds
