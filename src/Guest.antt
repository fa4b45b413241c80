-- ===== src/Guest.antt =====
-- The in-guest provider, wasip3-impl/src: `State` is the state that the pump and the exported
-- resources share (runtime.rs), `Provider` the resources (provider.rs), `Pump` the event loop.
pub mod State
pub mod Provider
pub mod Pump
pub mod Connection
mod Tests
