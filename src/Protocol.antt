-- ===== src/Protocol.antt =====
-- packages/protocol: the data that the packages exchange.
pub mod Json
pub mod Host
pub mod Events
pub mod Evidence
pub mod Claims
pub mod Proofs
pub mod Effects
pub mod Preflight
pub mod Approvals
pub mod Mutations
pub mod Payloads
pub mod Samples
