-- ===== src/Adapters.antt =====
-- The conformance adapters, conformance/adapters: what they run, and what they report to the runner.
pub mod Outcome
pub mod Verdict
pub mod PeerCommand
pub mod Lab
pub mod Session
pub mod Driver
pub mod Interop
pub mod Shadow
mod Tests
