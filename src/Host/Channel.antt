-- ===== src/Host/Channel.antt =====
-- The methods of a channel in the Wasmtime host: wasmtime-impl/src/host.rs over the claim and the
-- queue of data_channel.rs, and the errors of error.rs. The transport is a parameter; the error texts
-- that it and `from_utf8` give are parameters of the results.
pub mod Sent
pub mod Claims
use wasi_webrtc_datachannels.Base.{
  ℕ, suc, ◌+◌, ◌%◌, ◌^◌, Bool, true, false, ◌||◌, ◌&&◌, not, Option, none, some, String, List, [],
  ◌∷◌, length, ltb, ◌==◌, nat_eq, if◌then◌else◌,
}
use wasi_webrtc_datachannels.Base.Utf8.{is_utf8}
use wasi_webrtc_datachannels.Guest.Provider.{Error, Message, binary, string}
use wasi_webrtc_datachannels.Host.Inbound.{InboundMessage}

-- The errors of the host, with the text of their cause.
pub data WebrtcError : Type 0 where
  closed : WebrtcError
  timed_out : WebrtcError
  invalid_signaling : String → WebrtcError
  receiving_via_stream : WebrtcError
  receive_buffer_overflow : WebrtcError
  other : String → WebrtcError

pub data WebrtcResult {ℓ} (A : Type ℓ) : Type ℓ where
  ok : A → WebrtcResult A
  err : WebrtcError → WebrtcResult A

-- The conversion into the `error` of the WIT interface.
unfoldable pub to_error : WebrtcError → Error
to_error closed = Error.closed
to_error timed_out = Error.timed_out
to_error (invalid_signaling text) = Error.invalid_signaling text
to_error receiving_via_stream = Error.receiving_via_stream
to_error receive_buffer_overflow = Error.receive_buffer_overflow
to_error (other text) = Error.other text

unfoldable pub to_message : InboundMessage → WebrtcResult Message
to_message m =
    if m.is_string
    then if is_utf8 m.payload
      then ok (string m.payload)
      else err (other "string message is not valid UTF-8")
    else ok (binary m.payload)

-- The calls on a channel of the `webrtc` crate; `none` is success, and a failure has a text.
pub record Transport (Wire : Type 0) : Type 0 where
  pub send_text : Wire → List ℕ → Option String × Wire
  pub send : Wire → List ℕ → Option String × Wire
  pub is_open : Wire → Bool

pub data Driven : Type 0 where
  all_sent : Driven
  stopped : Error → ℕ → Driven

-- A message of `send-via-stream`, drained. `closed` is what the close signal says when its turn comes.
pub record PendingSend : Type 0 where
  pub is_string : Bool
  pub length : ℕ
  pub payload : List ℕ
  pub closed : Bool

module _ {Wire : Type 0} (t : Transport Wire) where
  unfoldable pub judge : Option String × Wire → WebrtcResult (Unit {0}) × Wire
  judge (none, w) = (ok tt, w)
  judge (some text, w) = if t.is_open w then (err (other text), w) else (err WebrtcError.closed, w)

  unfoldable pub send_channel_message : Wire → Bool → List ℕ → WebrtcResult (Unit {0}) × Wire
  send_channel_message w true payload =
      if is_utf8 payload
      then judge (t.send_text w payload)
      else (err (other "string message is not valid UTF-8"), w)
  send_channel_message w false payload = judge (t.send w payload)

  -- `send` on a wired channel.
  unfoldable pub host_send : Wire → Bool → Message → WebrtcResult (Unit {0}) × Wire
  host_send w conn_closed (binary payload) =
      if conn_closed then (err WebrtcError.closed, w) else send_channel_message w false payload
  host_send w conn_closed (string payload) =
      if conn_closed then (err WebrtcError.closed, w) else send_channel_message w true payload

  -- What becomes of one message.
  unfoldable pub send_pending : Wire → PendingSend → WebrtcResult (Unit {0}) × Wire
  send_pending w p =
      if p.closed
      then (err WebrtcError.closed, w)
      else if length p.payload == p.length
      then send_channel_message w p.is_string p.payload
      else (err (other "stream-message payload has another length than declared"), w)

  -- The loop of `send_via_stream`, with the messages in the order of the stream.
  unfoldable pub counted : ℕ → WebrtcResult (Unit {0}) × Wire → Driven × Wire → Driven × Wire
  counted sent (ok u, w) rest = rest
  counted sent (err e, w) rest = (stopped (to_error e) sent, w)

  unfoldable pub send_via_stream : Wire → ℕ → List PendingSend → Driven × Wire
  unfolding counted
  send_via_stream w sent [] = (all_sent, w)
  send_via_stream w sent (p ∷ ps) =
      let r = send_pending w p in
      let rest = send_via_stream r.1 ((sent + 1) % 2 ^ 64) ps in counted sent r rest

-- A channel as its methods see it. `ended` is the end of the queue, `unwired` the error of the wiring.
pub record HostChannel : Type 0 where
  pub wired : Option (WebrtcResult (Unit {0}))
  pub stream_receiving : Bool
  pub started_tx : Bool
  pub fired : Bool
  pub queue : List InboundMessage
  pub ended : Bool
  pub overflowed : Bool

unfoldable pub deferred : HostChannel
deferred = record {
  wired = none;
  stream_receiving = false;
  started_tx = true;
  fired = false;
  queue = [];
  ended = false;
  overflowed = false;
}

-- Takes the sender, which the first call finds and no later one.
unfoldable pub begin_stream_receiving : HostChannel → Bool × HostChannel
begin_stream_receiving c =
    if c.started_tx
    then (true, record c { stream_receiving = true; started_tx = false })
    else (false, c)

unfoldable pub receive_via_stream : HostChannel → WebrtcResult (Unit {0}) × HostChannel
receive_via_stream c =
    let (claimed, d) = begin_stream_receiving c in
    if claimed then (ok tt, d) else (err receiving_via_stream, d)

-- `next_inbound`, `none` where it waits.
unfoldable pub next_inbound :
    HostChannel → List InboundMessage → Option (WebrtcResult InboundMessage) × HostChannel
next_inbound c (m ∷ q) = (some (ok m), record c { queue = q })
next_inbound c [] =
    if c.ended
    then (some (if c.overflowed then err receive_buffer_overflow else err WebrtcError.closed), c)
    else (none, c)

-- The first branch of the race in `receive`.
unfoldable pub receive_first :
    HostChannel
    → Option (WebrtcResult (Unit {0}))
    → Option (WebrtcResult InboundMessage) × HostChannel
receive_first c none = (none, c)
receive_first c (some (err e)) = (some (err e), c)
receive_first c (some (ok u)) = next_inbound c c.queue

unfoldable pub converted : WebrtcResult InboundMessage → WebrtcResult Message
converted (ok m) = to_message m
converted (err e) = err e

-- The race, in the order of its branches; `none` where all wait. A call that came before the claim
-- has not returned early and is woken by it.
unfoldable pub raced :
    Option (WebrtcResult InboundMessage) × HostChannel → Option (WebrtcResult Message) × HostChannel
raced (some r, c) = (some (converted r), c)
raced (none, c) =
    if not c.started_tx
    then (some (err receiving_via_stream), c)
    else if c.fired
    then (some (err WebrtcError.closed), c)
    else (none, c)

unfoldable pub pending_receive : HostChannel → Option (WebrtcResult Message) × HostChannel
unfolding receive_first converted raced
pending_receive c = raced (receive_first c c.wired)

unfoldable pub receive : HostChannel → Option (WebrtcResult Message) × HostChannel
receive c = if c.stream_receiving then (some (err receiving_via_stream), c) else pending_receive c
