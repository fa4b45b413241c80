-- ===== src/Runner.antt =====
-- The policy of the conformance runner, conformance/runner/src.
pub mod Manifest
pub mod Plan
mod Tests
