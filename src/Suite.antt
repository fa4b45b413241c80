-- ===== src/Suite.antt =====
-- The conformance guest, conformance/guest/src/lib.rs: the tests that every implementation runs.
pub mod Payload
pub mod Calls
pub mod Exchange
pub mod Barrier
pub mod Handshake
pub mod Probes
mod Tests
