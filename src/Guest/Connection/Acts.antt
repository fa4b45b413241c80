-- ===== src/Guest/Connection/Acts.antt =====
-- The calls of a peer-connection of wasip3-impl/src/provider.rs, one after the other.
use wasi_webrtc_datachannels.Base.{ℕ, Bool, true, false, List, [], ◌∷◌, ◌++◌}
use wasi_webrtc_datachannels.Guest.State.{Shared}
use wasi_webrtc_datachannels.Guest.Connection.{
  DcConfig, SessionDescription, IceCandidate, SignalingCore, PeerState, local_ice_candidates,
  set_local_description, close_connection, create_data_channel, create_offer, create_answer,
  set_remote_description, add_ice_candidate, wait_connected,
}

-- The calls of the interface, and whatever else changes the shared state between them. `wait_connected`
-- is taken up to its first pass, since the later ones only read the shared state; and
-- `incoming_data_channels`, which changes nothing of the connection, is left out.
pub data Act (Peer : Type 0) : Type 0 where
  creating : DcConfig → Act Peer
  offering : Act Peer
  answering : Act Peer
  setting_local : SessionDescription → Act Peer
  setting_remote : SessionDescription → Act Peer
  taking : Act Peer
  adding : IceCandidate → Act Peer
  waiting : ℕ → Act Peer
  closing : ℕ → Act Peer
  sharing : (Shared Peer → Shared Peer) → Act Peer

module _ {Peer : Type 0} where
  -- The asynchronous methods, which start the pump.
  abbrev pub starts : Act Peer → Bool
  starts offering = true
  starts answering = true
  starts (setting_local d) = true
  starts (setting_remote d) = true
  starts (adding c) = true
  starts (waiting now) = true
  starts a = false

  abbrev pub takes : Act Peer → Bool
  takes taking = true
  takes a = false

  abbrev quiet : PeerState Peer → List IceCandidate × PeerState Peer
  quiet s = ([], s)

  module _ (core : SignalingCore Peer) where
    -- One act, with the candidates that its stream yields.
    unfoldable pub act : Act Peer → PeerState Peer → List IceCandidate × PeerState Peer
    unfolding local_ice_candidates
    act (creating c) s = quiet (create_data_channel core c s).1
    act offering s = quiet (create_offer core s).1
    act answering s = quiet (create_answer core s).1
    act (setting_local d) s = quiet (set_local_description d s).1
    act (setting_remote d) s = quiet (set_remote_description core d s).1
    act taking s = local_ice_candidates s
    act (adding c) s = quiet (add_ice_candidate core c s).1
    act (waiting now) s = quiet (wait_connected now s).1
    act (closing now) s = quiet (close_connection now s)
    act (sharing f) s = quiet (record s { shared = f s.shared })

    unfoldable pub run : List (Act Peer) → PeerState Peer → List IceCandidate × PeerState Peer
    unfolding act
    run [] s = ([], s)
    run (a ∷ acts) s = let rest = run acts (act a s).1 in ((act a s).0 ++ rest.0, rest.1)
