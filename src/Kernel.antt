-- ===== src/Kernel.antt =====
-- packages/kernel: the release gate, the event log of a run, and the run kernel.
pub mod ReleaseGate
pub mod Events
pub mod InMemoryLedger
pub mod Run
pub mod RunSamples
mod RunTests
mod Tests
mod LogTests
