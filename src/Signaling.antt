-- ===== src/Signaling.antt =====
-- The conformance signaling server: conformance/signaling/server/src. `Mailbox` and `Rooms` are the
-- in-memory store of state.rs, `LongPoll` its blocking fetch, `Http` the handlers of lib.rs.
pub mod Mailbox
pub mod Rooms
pub mod LongPoll
pub mod Http
mod Tests
