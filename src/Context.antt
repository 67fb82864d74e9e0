-- ===== src/Context.antt =====
-- src/context-ledger.ts: the ledger of what one model request was given.
pub mod Ledger
pub mod Sorting
pub mod Admission
