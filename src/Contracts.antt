-- ===== src/Contracts.antt =====
-- packages/contracts: canonical JSON and its hash.
pub mod Utf8
pub mod Sha256
pub mod Canonical
pub mod Json
pub mod Schemas
mod Tests
