-- ===== src/Suite/Handshake.antt =====
-- The mailbox handshake of the two-peer tests, conformance/guest/src/lib.rs. The peer connection
-- under test and the JSON text of a signal are parameters. A session is the results that its calls
-- get, each kind in order, and what it has posted.
pub mod Signaling
pub use wasi_webrtc_datachannels.Guest.Connection.{SdpType, SessionDescription, IceCandidate}
use wasi_webrtc_datachannels.Base.{
  ℕ, ◌≡◌, Bool, true, false, Option, none, some, String, List, [], ◌∷◌, ◌++◌, ◌==◌, string_eq,
  if◌then◌else◌,
}
use Prim.Native.String.{◌++◌ as ◌<>◌}
use wasi_webrtc_datachannels.Guest.Provider.{Error, Result}
use wasi_webrtc_datachannels.Suite.Calls.{
  said, Checked, ok, err, describe, map_err, Run, bind, ◌>>=◌, ◌>>◌, return,
}
use wasi_webrtc_datachannels.Suite.Exchange.{channel_label}

pub data Signal : Type 0 where
  offer : String → Signal
  answer : String → Signal
  candidate : IceCandidate → Signal
  end_of_candidates : Signal

pub record DataChannelOptions : Type 0 where
  pub label : String
  pub max_retransmits : Option ℕ

unfoldable pub channel_options : String → DataChannelOptions
channel_options test_id = record {
  label = channel_label;
  max_retransmits = if test_id == "max-retransmits-accepted" then some 0 else none;
}

-- One read of a stream: whether it is the last, and what it brought.
abbrev pub Read {ℓ} : Type ℓ → Type ℓ
Read A = Bool × List A

-- The interface under test. A method changes the connection also where it fails.
pub record PeerApi (Peer Channel : Type 0) : Type 0 where
  pub create_data_channel : DataChannelOptions → Peer → Result Channel × Peer
  pub create_offer : Peer → Result SessionDescription × Peer
  pub create_answer : Peer → Result SessionDescription × Peer
  pub set_local_description : SessionDescription → Peer → Result (Unit {0}) × Peer
  pub set_remote_description : SessionDescription → Peer → Result (Unit {0}) × Peer
  pub add_ice_candidate : IceCandidate → Peer → Result (Unit {0}) × Peer
  pub wait_connected : Peer → Result (Unit {0}) × Peer
  pub local_ice_candidates : Peer → List (Read IceCandidate)
  pub incoming_data_channels : Peer → List Channel

-- `recvs` are the results of `recv`, `puts` those of `send` and `done`; `posted` are the blobs that
-- were sent, with `none` for the call of `done`.
pub record World (Peer Blob : Type 0) : Type 0 where
  pub peer : Peer
  pub recvs : List (Result (Option Blob))
  pub puts : List (Result (Unit {0}))
  pub posted : List (Option Blob)

-- `serde_json` on signals.
pub record Codec (Blob : Type 0) : Type 0 where
  pub to_vec : Signal → Blob
  pub from_slice : Blob → Checked Signal

-- Drains a stream to its last read; `none` where it never ends.
unfoldable pub collect_candidates {ℓ} : {A : Type ℓ} → List (Read A) → List A → Option (List A)
collect_candidates [] out = none
collect_candidates ((last, batch) ∷ rs) out =
    let rest = collect_candidates rs (out ++ batch) in if last then some (out ++ batch) else rest

abbrev pub first_incoming : {A : Type 0} → List A → Checked A
first_incoming [] = err (said "no incoming data channel")
first_incoming (c ∷ cs) = ok c

module _ {Peer Channel Blob : Type 0} (api : PeerApi Peer Channel) (codec : Codec Blob) where
  abbrev M : Type 0 → Type 0
  M A = Run (World Peer Blob) (Checked A)

  abbrev put_next :
      String
      → Option Blob
      → World Peer Blob
      → List (Result (Unit {0}))
      → Option (Checked (Unit {0}) × World Peer Blob)
  put_next call b w [] = none
  put_next call b w (r ∷ rs) =
      some (map_err call r, record w { puts = rs; posted = w.posted ++ b ∷ [] })

  unfoldable pub publish : Signal → M (Unit {0})
  publish s w = put_next "mailbox send" (some (codec.to_vec s)) w w.puts

  unfoldable pub done : M (Unit {0})
  done w = put_next "mailbox done" none w w.puts

  -- A call of the connection, with its error named.
  abbrev on_peer : {A : Type 0} → String → (Peer → Result A × Peer) → M A
  on_peer call f w = let (r, p) = f w.peer in some (map_err call r, record w { peer = p })

  unfoldable pub publish_all : List IceCandidate → M (Unit {0})
  publish_all [] = return (ok tt)
  publish_all (c ∷ cs) = do publish (candidate c); publish_all cs

  abbrev publish_collected : Option (List IceCandidate) → M (Unit {0})
  publish_collected none w = none
  publish_collected (some cs) w = (publish_all cs >> publish end_of_candidates) w

  unfoldable pub publish_candidates : M (Unit {0})
  unfolding publish_all collect_candidates
  publish_candidates w =
      publish_collected (collect_candidates (api.local_ice_candidates w.peer) []) w

  abbrev decoded : Checked Signal → Checked (Option Signal)
  decoded (ok s) = ok (some s)
  decoded (err d) = err d

  abbrev decode : Checked (Option Blob) → Checked (Option Signal)
  decode (ok none) = ok none
  decode (ok (some b)) = decoded (codec.from_slice b)
  decode (err d) = err d

  -- The result of `recv_signal` where `recv` got `r`.
  unfoldable pub signal_of : Result (Option Blob) → Checked (Option Signal)
  signal_of r = decode (map_err "mailbox recv" r)

  unfoldable pub apply_signal : Signal → M (Unit {0})
  apply_signal (answer sdp) =
      on_peer "set-remote-description answer"
        (api.set_remote_description (record { kind = SdpType.answer; sdp = sdp }))
  apply_signal (offer sdp) = return (err (said "unexpected second offer"))
  apply_signal (candidate c) = on_peer "add-ice-candidate" (api.add_ice_candidate c)
  apply_signal end_of_candidates = return (ok tt)

  abbrev consume_one : Checked (Option Signal) → M (Unit {0}) → M (Unit {0})
  consume_one (err d) rest = return (err d)
  consume_one (ok none) rest = return (ok tt)
  consume_one (ok (some s)) rest = apply_signal s >> rest

  -- The loop over the results to come; each is taken off the session first.
  unfoldable pub consume_from : List (Result (Option Blob)) → M (Unit {0})
  unfolding signal_of apply_signal
  consume_from [] w = none
  consume_from (r ∷ rs) w = consume_one (signal_of r) (consume_from rs) (record w { recvs = rs })

  unfoldable pub consume_signaling : M (Unit {0})
  consume_signaling w = consume_from w.recvs w

  unfoldable pub handshake_offerer : String → M Channel
  unfolding publish publish_candidates done consume_signaling
  handshake_offerer test_id = do
    dc ← on_peer "create-data-channel" (api.create_data_channel (channel_options test_id))
    description ← on_peer "create-offer" api.create_offer
    on_peer "set-local-description" (api.set_local_description description)
    publish (offer description.sdp)
    publish_candidates
    done
    consume_signaling
    on_peer "wait-connected" api.wait_connected
    return (ok dc)

  abbrev first_signal :
      World Peer Blob
      → List (Result (Option Blob))
      → Option (Checked (Option Signal) × World Peer Blob)
  first_signal w [] = none
  first_signal w (r ∷ rs) = some (signal_of r, record w { recvs = rs })

  abbrev expect_offer : Option Signal → Checked String
  expect_offer (some (offer sdp)) = ok sdp
  expect_offer other = err (said "expected offer")

  unfoldable pub handshake_answerer : M Channel
  unfolding publish publish_candidates done consume_signaling signal_of
  handshake_answerer = do
    first ← λ w. first_signal w w.recvs
    sdp ← return (expect_offer first)
    on_peer "set-remote-description offer"
        (api.set_remote_description (record { kind = SdpType.offer; sdp = sdp }))
    description ← on_peer "create-answer" api.create_answer
    on_peer "set-local-description" (api.set_local_description description)
    publish (answer description.sdp)
    publish_candidates
    done
    consume_signaling
    on_peer "wait-connected" api.wait_connected
    λ w. some (first_incoming (api.incoming_data_channels w.peer), w)
