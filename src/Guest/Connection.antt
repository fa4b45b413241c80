-- ===== src/Guest/Connection.antt =====
-- The exported peer-connection and data-channel-options of wasip3-impl/src/provider.rs, over the calls
-- of the core that its signaling uses (peer.rs). `pumps` counts the pumps that were spawned, `waker`
-- is the number of the queue that its senders fill (`Guest.Provider.DataChannel`), `nudges` the count
-- of what was sent on it.
pub mod Acts
pub mod Dead
pub mod Flags
pub mod Once
use wasi_webrtc_datachannels.Base.{
  ℕ, suc, ◌+◌, ◌*◌, ◌^◌, Bool, true, false, Option, none, some, String, List, [], ◌∷◌,
  if◌then◌else◌,
}
use wasi_webrtc_datachannels.Guest.State.{Shared, begin_close}
use wasi_webrtc_datachannels.Guest.Provider.{
  Error, invalid_signaling, other, Result, ok, err, DataChannel, Attempt, wait_pass,
}
use wasi_webrtc_datachannels.Guest.Pump.{new_shared}

-- CONNECT_TIMEOUT, in nanoseconds.
abbrev pub connect_timeout : ℕ
connect_timeout = 20 * 10 ^ 9

pub record DcConfig : Type 0 where
  pub label : String
  pub ordered : Bool
  pub max_retransmits : Option ℕ

abbrev pub default_config : DcConfig
default_config = record { label = ""; ordered = true; max_retransmits = none }

-- The setters of the options.
unfoldable set_label : String → DcConfig → DcConfig
set_label label c = record c { label = label }

unfoldable set_ordered : Bool → DcConfig → DcConfig
set_ordered ordered c = record c { ordered = ordered }

unfoldable set_max_retransmits : Option ℕ → DcConfig → DcConfig
set_max_retransmits max_retransmits c = record c { max_retransmits = max_retransmits }

pub data SdpType : Type 0 where
  offer answer pranswer rollback : SdpType

pub record SessionDescription : Type 0 where
  pub kind : SdpType
  pub sdp : String

pub record IceCandidate : Type 0 where
  pub candidate : String
  pub sdp_mid : Option String
  pub sdp_mline_index : Option ℕ

-- A call of the core: a result, or the text of its error.
pub data Called {ℓ} (A : Type ℓ) : Type ℓ where
  done : A → Called A
  failed : String → Called A

pub record SignalingCore (Peer : Type 0) : Type 0 where
  pub create_data_channel : Peer → String → Bool → Option ℕ → Called ℕ × Peer
  pub create_offer : Peer → Called String × Peer
  pub create_answer : Peer → Called String × Peer
  pub set_remote_offer : Peer → String → Called (Unit {0}) × Peer
  pub set_remote_answer : Peer → String → Called (Unit {0}) × Peer
  pub add_remote_candidate : Peer → String → Called (Unit {0}) × Peer

pub record PeerState (Peer : Type 0) : Type 0 where
  pub shared : Shared Peer
  pub local_candidate : String
  pub local_channel : Option ℕ
  pub candidate_taken : Bool
  pub started_pump : Bool
  pub runtime : Bool
  pub pumps : ℕ
  pub waker : ℕ
  pub nudges : ℕ

module _ {Peer : Type 0} where
  unfoldable pub dead_shared : Peer → Shared Peer
  dead_shared p = record (new_shared p) { failed = true; closed = true; shutdown_complete = true }

  -- `bound` is the peer that has a socket, with its candidate; `spare` is the peer of a connection
  -- whose socket could not be bound; `waker` numbers the queue that is made for the connection.
  unfoldable pub new_connection : Option (Peer × String) → Peer → ℕ → PeerState Peer
  unfolding dead_shared
  new_connection (some (p, candidate)) spare waker = record {
    shared = new_shared p;
    local_candidate = candidate;
    local_channel = none;
    candidate_taken = false;
    started_pump = false;
    runtime = true;
    pumps = 0;
    waker = waker;
    nudges = 0;
  }
  new_connection none spare waker = record {
    shared = dead_shared spare;
    local_candidate = "";
    local_channel = none;
    candidate_taken = true;
    started_pump = true;
    runtime = false;
    pumps = 0;
    waker = waker;
    nudges = 0;
  }

  unfoldable pub ensure_pump : PeerState Peer → PeerState Peer
  ensure_pump s =
      if s.started_pump
      then s
      else if s.runtime
      then record s { runtime = false; started_pump = true; pumps = suc s.pumps }
      else s

  abbrev with_peer : PeerState Peer → Peer → PeerState Peer
  with_peer s p = record s { shared = record s.shared { peer = p } }

  abbrev nudge : PeerState Peer → PeerState Peer
  nudge s = record s { nudges = suc s.nudges }

  -- The candidate is yielded once, as the whole stream of the first call.
  unfoldable pub local_ice_candidates : PeerState Peer → List IceCandidate × PeerState Peer
  local_ice_candidates s = if s.candidate_taken then ([], s) else (
    record { candidate = s.local_candidate; sdp_mid = none; sdp_mline_index = none } ∷ [],
    record s { candidate_taken = true },
  )

  unfoldable pub set_local_description :
      SessionDescription → PeerState Peer → Result (Unit {0}) × PeerState Peer
  unfolding ensure_pump
  set_local_description d s = (ok tt, ensure_pump s)

  -- `wait_connected` up to the first pass of its loop, with the deadline of the later passes.
  unfoldable pub wait_connected : ℕ → PeerState Peer → (Attempt (Unit {0}) × ℕ) × PeerState Peer
  unfolding ensure_pump wait_pass
  wait_connected now s =
      let t = ensure_pump s in
      let deadline = now + connect_timeout in ((wait_pass t.shared deadline now, deadline), t)

  unfoldable pub close_connection : ℕ → PeerState Peer → PeerState Peer
  close_connection now s = nudge (record s { shared = begin_close s.shared now })

module _ {Peer : Type 0} (core : SignalingCore Peer) where
  abbrev channel_made :
      DcConfig → PeerState Peer → Called ℕ × Peer → Result DataChannel × PeerState Peer
  channel_made c s (failed e, p) = (err (other e), with_peer s p)
  channel_made c s (done id, p) = (
    ok (record { id = id; label = c.label; waker = s.waker }),
    record (with_peer s p) { local_channel = some id },
  )

  unfoldable pub create_data_channel :
      DcConfig → PeerState Peer → Result DataChannel × PeerState Peer
  create_data_channel c s =
      channel_made c s (core.create_data_channel s.shared.peer c.label c.ordered c.max_retransmits)

  abbrev pub described :
      SdpType → PeerState Peer → Called String × Peer → Result SessionDescription × PeerState Peer
  described kind s (done sdp, p) = (ok (record { kind = kind; sdp = sdp }), with_peer s p)
  described kind s (failed e, p) = (err (other e), with_peer s p)

  unfoldable pub create_offer : PeerState Peer → Result SessionDescription × PeerState Peer
  unfolding ensure_pump
  create_offer s = let t = ensure_pump s in described offer t (core.create_offer t.shared.peer)

  unfoldable pub create_answer : PeerState Peer → Result SessionDescription × PeerState Peer
  unfolding ensure_pump
  create_answer s = let t = ensure_pump s in described answer t (core.create_answer t.shared.peer)

  -- A remote description or candidate that the core takes wakes the pump.
  abbrev signaled : PeerState Peer → Called (Unit {0}) × Peer → Result (Unit {0}) × PeerState Peer
  signaled s (done u, p) = (ok tt, nudge (with_peer s p))
  signaled s (failed e, p) = (err (invalid_signaling e), with_peer s p)

  abbrev remote_of : SdpType → String → PeerState Peer → Result (Unit {0}) × PeerState Peer
  remote_of offer sdp s = signaled s (core.set_remote_offer s.shared.peer sdp)
  remote_of answer sdp s = signaled s (core.set_remote_answer s.shared.peer sdp)
  remote_of pranswer sdp s = signaled s (core.set_remote_answer s.shared.peer sdp)
  remote_of rollback sdp s = (err (invalid_signaling "rollback is not supported"), s)

  unfoldable pub set_remote_description :
      SessionDescription → PeerState Peer → Result (Unit {0}) × PeerState Peer
  unfolding ensure_pump
  set_remote_description d s = remote_of d.kind d.sdp (ensure_pump s)

  unfoldable pub add_ice_candidate :
      IceCandidate → PeerState Peer → Result (Unit {0}) × PeerState Peer
  unfolding ensure_pump
  add_ice_candidate c s =
      let t = ensure_pump s in signaled t (core.add_remote_candidate t.shared.peer c.candidate)
