-- ===== src/Guest/Pump.antt =====
-- The event loop of wasip3-impl/src/runtime.rs, and the exported methods of
-- wasip3-impl/src/provider.rs that run while it waits. What runs between two awaits is one step.
-- The sans-I/O core is a parameter.
pub mod Steps
pub mod Writes
pub mod Kept
pub mod Closing
pub mod Final
use wasi_webrtc_datachannels.Base.{
  ℕ, ◌+◌, ◌≡◌, String, Bool, true, false, Option, none, some, List, [], ◌∷◌, ltb, leb,
  if◌then◌else◌, not, ◌||◌, ◌&&◌,
}
use wasi_webrtc_datachannels.Guest.State.{PeerEvent, Shared, close_channels, notify, apply_events}
use wasi_webrtc_datachannels.Guest.Provider.{Result, Message}

-- The calls on the core, with a datagram as a list of bytes.
pub record Core (Peer : Type 0) : Type 0 where
  pub close : Peer → Peer
  pub close_data_channel : Peer → ℕ → Peer
  pub drain_events : Peer → List PeerEvent × Peer
  pub poll_transmit : Peer → Option (List ℕ) × Peer
  pub handle_input : Peer → List ℕ → ℕ → Peer
  pub handle_timeout : Peer → ℕ → Peer
  pub send : Peer → ℕ → Message → Result (Unit {0}) × Peer

unfoldable pub lapsed : Option ℕ → ℕ → Bool
lapsed none now = true
lapsed (some d) now = leb d now

module _ {Peer : Type 0} where
  abbrev pub new_shared : Peer → Shared Peer
  new_shared p = record {
    peer = p;
    channels = [];
    connected = false;
    failed = false;
    closed = false;
    close_requested = false;
    shutdown_complete = false;
    drain_deadline = none;
    version = 0;
  }

  unfoldable pub is_done : Shared Peer → ℕ → Bool
  unfolding lapsed
  is_done s now = s.failed || s.closed && (s.shutdown_complete || lapsed s.drain_deadline now)

  -- What the pump does after the last flush, before it returns.
  unfoldable pub finish : Shared Peer → Shared Peer
  finish s = notify (record s { closed = true; channels = close_channels s.channels })

  abbrev pub notify_events : List PeerEvent → Shared Peer → Shared Peer
  notify_events [] s = s
  notify_events (e ∷ es) s = notify s

module _ {Peer : Type 0} (core : Core Peer) (limit : ℕ) where
  unfoldable pub close_core : Shared Peer → Shared Peer
  close_core s =
      if s.close_requested
      then record s { close_requested = false; peer = core.close s.peer }
      else s

  unfoldable pub fold_events : Shared Peer → List PeerEvent × Peer → ℕ → Bool × Shared Peer
  fold_events s (events, p) now =
      let t = apply_events core.close_data_channel limit (record s { peer = p }) events in
      (is_done t now, notify_events events t)

  -- The part of a pass between the flushes; the Boolean tells whether it is the last.
  unfoldable pub turn : Shared Peer → ℕ → Bool × Shared Peer
  unfolding close_core fold_events
  turn s now = let t = close_core s in fold_events t (core.drain_events t.peer) now

  unfoldable pub flush_one : Shared Peer → Shared Peer
  flush_one s = record s { peer = (core.poll_transmit s.peer).1 }
