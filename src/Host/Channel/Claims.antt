-- ===== src/Host/Channel/Claims.antt =====
-- Who gets the inbound messages of a channel, wasmtime-impl/src/host.rs.
use wasi_webrtc_datachannels.Base.{
  ◌≡◌, ◌≢◌, refl, Bool, true, false, not, ◌||◌, ◌∙◌, arith, Option, none, some, List, [], ◌∷◌,
  if◌then◌else◌,
}
use wasi_webrtc_datachannels.Guest.Provider.{Message}
use wasi_webrtc_datachannels.Host.Inbound.{InboundMessage}
use wasi_webrtc_datachannels.Host.Channel.{
  HostChannel, begin_stream_receiving, receive_via_stream, next_inbound, pending_receive, receive,
  WebrtcResult, ok, err, receiving_via_stream, WebrtcError, receive_first, raced,
}

-- The first `receive-via-stream` of a channel succeeds and takes the messages over: from then on
-- every further `receive-via-stream`, and every `receive` that is called, fails with
-- `receiving-via-stream` and leaves the channel as it is. It holds of a channel in any state of its
-- wiring, of its queue and of its connection.
pub receive_via_stream-claims_once :
    (c : HostChannel)
    → c.started_tx ≡ true
    → let (r, d) = receive_via_stream c in
      (r ≡ ok tt)
      × (receive_via_stream d ≡ (err receiving_via_stream, d))
      × (receive d ≡ (some (err receiving_via_stream), d))
unfolding receive_via_stream begin_stream_receiving receive
receive_via_stream-claims_once c e = rw e (refl, refl, refl)

-- The reasons for which a waiting `receive` is woken.
abbrev pub woken : HostChannel → Bool
woken c = not c.started_tx || c.fired

next_inbound-woken :
    (c : HostChannel) (q : List InboundMessage) → woken (next_inbound c q).1 ≡ woken c
unfolding next_inbound
next_inbound-woken c (m ∷ q) = refl
next_inbound-woken c [] = ground arith

receive_first-woken :
    (c : HostChannel) (o : Option (WebrtcResult (Unit {0}))) → woken (receive_first c o).1 ≡ woken c
unfolding receive_first
receive_first-woken c none = refl
receive_first-woken c (some (err e)) = refl
receive_first-woken c (some (ok u)) = next_inbound-woken c c.queue

abbrev woken_by : HostChannel → Bool → Bool → Option (WebrtcResult Message) × HostChannel
woken_by c a b =
    if a
    then (some (err receiving_via_stream), c)
    else if b
    then (some (err WebrtcError.closed), c)
    else (none, c)

woken_by-ready : (c : HostChannel) (a b : Bool) → (a || b) ≡ true → (woken_by c a b).0 ≢ none
woken_by-ready c true b w = λ e. cc
woken_by-ready c false true w = λ e. cc
woken_by-ready c false false w = cc

raced_ready :
    (r : Option (WebrtcResult InboundMessage) × HostChannel) → woken r.1 ≡ true → (raced r).0 ≢ none
unfolding raced
raced_ready (some r, c) w = λ e. cc
raced_ready (none, c) w = woken_by-ready c (not c.started_tx) c.fired w

-- A `receive` that waits never outlasts the claim of the stream or the close of the connection: once
-- either has happened, its next turn ends it, with a message or with an error.
pub pending_receive_ends : (c : HostChannel) → woken c ≡ true → (pending_receive c).0 ≢ none
unfolding pending_receive
pending_receive_ends c w = raced_ready (receive_first c c.wired) (receive_first-woken c c.wired ∙ w)
