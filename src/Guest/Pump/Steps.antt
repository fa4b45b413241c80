-- ===== src/Guest/Pump/Steps.antt =====
-- The interleavings of the pump of wasip3-impl/src/runtime.rs with the exported methods, as runs of
-- steps, and what a step leaves as it was.
use wasi_webrtc_datachannels.Base.{ℕ, List, [], ◌∷◌, nat_eq}
use wasi_webrtc_datachannels.Guest.State.{Shared, begin_close}
use wasi_webrtc_datachannels.Guest.Provider.{
  Message, DataChannel, send, receive, receive_via_stream, pump_receive,
}
use wasi_webrtc_datachannels.Guest.Pump.{Core, turn, flush_one, finish}

-- What may run next, with the time where the code reads the clock.
pub data Act : Type 0 where
  pump_turn : ℕ → Act
  flushing : Act
  finishing : Act
  input : List ℕ → ℕ → Act
  timeout : ℕ → Act
  closing : ℕ → Act
  sending : DataChannel → Message → Act
  receiving : ℕ → Act
  streaming : ℕ → Act
  feeding : ℕ → Act

module _ {Peer : Type 0} (core : Core Peer) (limit : ℕ) where
  unfoldable pub step : Shared Peer → Act → Shared Peer
  step s (pump_turn now) = (turn core limit s now).1
  step s flushing = flush_one core limit s
  step s finishing = finish s
  step s (input datagram now) = record s { peer = core.handle_input s.peer datagram now }
  step s (timeout now) = record s { peer = core.handle_timeout s.peer now }
  step s (closing now) = begin_close s now
  step s (sending dc m) = (send core.send dc s m).1
  step s (receiving id) = (receive s id).1
  step s (streaming id) = (receive_via_stream s id).1
  step s (feeding id) = (pump_receive s id).1

  unfoldable pub run : Shared Peer → List Act → Shared Peer
  run s [] = s
  run s (a ∷ acts) = run (step s a) acts
