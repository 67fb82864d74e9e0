-- ===== src/Telemetry/Queue.antt =====
-- src/telemetry/queue.ts: the durable queue. `Table` is the events table with the SQL that the
-- queue runs on it, `Store` the queue's state, its inserts and its capacity, `Claims` the batches
-- and their acks, `Upkeep` retention, revocation and totals.
pub mod Table
pub mod Store
pub mod Claims
pub mod Upkeep
pub mod Keys
pub mod Tally
pub mod Gaps
pub mod Capacity
pub mod Accounting
pub mod Commands
pub mod Shrinking
pub mod Operations
pub mod Soundness
pub mod Batches
pub mod Marks
pub mod Leases
pub mod Acks
pub mod Removal
pub mod Clearing
