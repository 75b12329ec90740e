-- ===== src/Proof.antt =====
-- packages/proof: the deterministic proof of a candidate's claims from admitted evidence.
pub mod Resolver
pub mod Mismatches
pub mod Predicates
pub mod Evaluation
pub mod Engine
pub mod Samples
mod Tests
