-- ===== src/Telemetry/Queue/Claims.antt =====
-- src/telemetry/queue.ts: claims of batches and what becomes of them.
mod Batching
mod Answering
unfoldable pub use Batching.*
unfoldable pub use Answering.*
