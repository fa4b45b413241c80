-- ===== src/Guest/Tests.antt =====
-- The theorems on wasip3-impl/src at concrete states and runs.
use wasi_webrtc_datachannels.Base.{
  ℕ, ◌+◌, nat_eq, ◌≤◌, ◌≡◌, refl, Bool, true, false, none, some, List, [], ◌∷◌, length, arith, leb,
  filter, All, Bool-cases, inl, inr,
}
use wasi_webrtc_datachannels.Guest.State.{
  InboundMessage, Channel, new_channel, PeerEvent, connected, failed, closed, channel_open,
  channel_closed, message, Shared, find, write, begin_close, apply_event, apply_events, notify,
}
use wasi_webrtc_datachannels.Guest.State.Accounting.{total, Fits}
use wasi_webrtc_datachannels.Guest.Provider.{
  Result, ok, wait, Message, ChannelState, channel_state, receive, receive_via_stream, DataChannel,
  send,
}
use wasi_webrtc_datachannels.Guest.Provider.Channels.{receive_via_stream_opening_unclaimed}
use wasi_webrtc_datachannels.Guest.Provider.Incoming.{incoming, Unheard, incoming-Unheard}
use wasi_webrtc_datachannels.Guest.Pump.{Core, new_shared, turn}
use wasi_webrtc_datachannels.Guest.Pump.Steps.{pump_turn, receiving, streaming, step, run}
use wasi_webrtc_datachannels.Guest.Pump.Closing.{run-inbox_bound, turn-is_done}
use wasi_webrtc_datachannels.Guest.Pump.Final.{closed_is_final}
use wasi_webrtc_datachannels.Guest.Connection.{
  Called, offer, done, SignalingCore, new_connection, create_offer, SessionDescription,
  create_data_channel,
}
use wasi_webrtc_datachannels.Guest.Connection.Acts.{
  Act, taking, offering, answering, waiting, closing, run as run_calls,
}
use wasi_webrtc_datachannels.Guest.Connection.Flags.{candidate_of}
use wasi_webrtc_datachannels.Guest.Connection.Once.{run_once}

-- A core that is the list of its events: it reports them all at once, without those that are too
-- long for it, and `close` makes it report the end of channel 1.
send_nowhere : List PeerEvent → ℕ → Message → Result (Unit {0}) × List PeerEvent
send_nowhere p id m = (ok tt, p)

abbrev short : PeerEvent → Bool
short (message id text payload) = leb (length payload) 1000
short e = true

abbrev script : Core (List PeerEvent)
script = record {
  close = λ p. channel_closed 1 ∷ p;
  close_data_channel = λ p id. p;
  drain_events = λ p. (filter short p, []);
  poll_transmit = λ p. (none, p);
  handle_input = λ p datagram now. p;
  handle_timeout = λ p now. p;
  send = send_nowhere;
}

short-Fits : (e : PeerEvent) → short e ≡ true → Fits 4 e
short-Fits connected h = tt
short-Fits failed h = tt
short-Fits closed h = tt
short-Fits (channel_open id label) h = tt
short-Fits (channel_closed id) h = tt
short-Fits (message id text payload) h = ground arith

short_events : (p : List PeerEvent) → All (Fits 4) (filter short p)
short_events [] = tt
short_events (e ∷ es) = elim (Bool-cases (short e)) [
  | inl h ↦ rw (h, filter) (short-Fits e h, short_events es)
  | inr h ↦ rw (h, filter) (short_events es)
]

-- The peer opens a channel and sends three bytes, then two.
abbrev two_messages : List PeerEvent
two_messages =
    connected
    ∷ channel_open 1 "a"
    ∷ message 1 false (1 ∷ 2 ∷ 3 ∷ [])
    ∷ message 1 false (4 ∷ 5 ∷ [])
    ∷ []

abbrev m3 : InboundMessage
m3 = record { text = false; payload = 1 ∷ 2 ∷ 3 ∷ [] }

abbrev m2 : InboundMessage
m2 = record { text = false; payload = 4 ∷ 5 ∷ [] }

abbrev full : Channel
full = record (new_channel 1 "a") { inbox = m3 ∷ m2 ∷ []; inbox_bytes = 5 }

-- The state with that channel.
abbrev received : Shared (List PeerEvent)
received = record (new_shared []) { connected = true; channels = full ∷ [] }

receive_via_stream_opening_unclaimed_example :
    let s' = (receive_via_stream received 3).1 in
    ((receive_via_stream received 3).0 ≡ ok tt)
    × ((receive_via_stream s' 3).0 ≡ ok tt)
    × ((receive (apply_event script.close_data_channel 8 s' (channel_open 3 "b")) 3).0 ≡ wait)
unfolding find
receive_via_stream_opening_unclaimed_example =
    receive_via_stream_opening_unclaimed script.close_data_channel 8 received 3 "b" refl refl

abbrev three_channels : List Channel
three_channels = new_channel 1 "a" ∷ new_channel 2 "b" ∷ new_channel 3 "c" ∷ []

incoming-Unheard_example : All (Unheard send_nowhere 0) (incoming (some 2) 3 1 three_channels)
incoming-Unheard_example =
    incoming-Unheard send_nowhere (some 2) 3 0 1 three_channels (omega arith) (omega arith)

-- With a bound of four bytes the second message overflows.
run-inbox_bound_example : total (m3 ∷ []) ≤ 4
unfolding run step turn apply_events apply_event find write notify
run-inbox_bound_example =
    run-inbox_bound script 4 (omega arith) short_events two_messages (pump_turn 0 ∷ []) 1
      (record (new_channel 1 "a") {
        inbox = m3 ∷ [];
        inbox_bytes = 3;
        overflowed = true;
        closed = true;
      })
      refl

turn-is_done_example :
    (turn script 4
      (run script 4 (begin_close received 7) (pump_turn 8 ∷ receiving 1 ∷ []))
      1000000007).0
    ≡ true
turn-is_done_example =
    turn-is_done script 4 received 7 1000000007 (pump_turn 8 ∷ receiving 1 ∷ []) refl (omega arith)

closed_is_final_example :
    let s = run script 4 (new_shared two_messages) (pump_turn 0 ∷ []) in
    channel_state (run script 4 s (receiving 1 ∷ pump_turn 1 ∷ streaming 1 ∷ [])) 1
    ≡ ChannelState.closed
unfolding run step turn apply_events apply_event find write notify channel_state
closed_is_final_example =
    closed_is_final script 4 1 (omega arith) short_events two_messages (pump_turn 0 ∷ [])
      (receiving 1 ∷ pump_turn 1 ∷ streaming 1 ∷ []) refl

-- A core that takes every description but no candidate.
abbrev deaf : SignalingCore ℕ
deaf = record {
  create_data_channel = λ p label ordered max. (done 1, p);
  create_offer = λ p. (done "v=0", p);
  create_answer = λ p. (Called.failed "no offer", p);
  set_remote_offer = λ p sdp. (done tt, p + 1);
  set_remote_answer = λ p sdp. (done tt, p + 1);
  add_remote_candidate = λ p c. (Called.failed "no candidate", p);
}

abbrev twice : List (Act ℕ)
twice = taking ∷ offering ∷ taking ∷ answering ∷ waiting 3 ∷ closing 5 ∷ []

run_once_example :
    let opened = run_calls deaf twice (new_connection (some (0, "candidate:1")) 0 0) in
    let lost = run_calls deaf twice (new_connection none 0 0) in
    (opened.0 ≡ candidate_of "candidate:1" ∷ [])
    × (opened.1.pumps ≡ 1)
    × (lost.0 ≡ [])
    × (lost.1.pumps ≡ 0)
run_once_example = run_once deaf twice 0 "candidate:1" 0 0

abbrev handle : DataChannel
handle = record { id = 1; label = ""; waker = 0 }

abbrev told : SessionDescription
told = record { kind = offer; sdp = "v=0" }
