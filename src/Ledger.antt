-- ===== src/Ledger.antt =====
-- packages/ledger: the semantic ledger, an append-only log of accepted events for each run.
pub mod Error
pub mod Event
pub mod Stream
pub mod Memory
mod Tests
