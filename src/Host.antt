-- ===== src/Host.antt =====
-- The parts of the Wasmtime host, wasmtime-impl/src.
pub mod Inbound
pub mod Connection
pub mod Channel
pub mod Pending
pub mod Streams
pub mod Descriptions
mod Tests
