-- ===== src/Guest/Provider.antt =====
-- The exported resources of wasip3-impl/src/provider.rs over the shared state. A method that waits
-- is one attempt at a time: it returns, or waits for the next change of the state.
pub mod Receiving
pub mod Channels
pub mod Incoming
pub mod Streaming
use wasi_webrtc_datachannels.Base.{
  ℕ, ◌+◌, ◌-◌, ◌≡◌, String, Bool, true, false, Option, none, some, List, [], ◌∷◌, ◌++◌, length, ltb,
  leb, ◌==◌, nat_eq, if◌then◌else◌, not, ◌||◌, ◌&&◌,
}
use wasi_webrtc_datachannels.Base.Utf8.{from_utf8_lossy}
use wasi_webrtc_datachannels.Guest.State.{
  InboundMessage, Channel, pop, Shared, find, channel_mut, put_channel, notify,
}

pub data Error : Type 0 where
  closed : Error
  timed_out : Error
  invalid_signaling : String → Error
  receiving_via_stream : Error
  receive_buffer_overflow : Error
  other : String → Error

pub data Result {ℓ} (A : Type ℓ) : Type ℓ where
  ok : A → Result A
  err : Error → Result A

-- One pass through the loop of a waiting method.
pub data Attempt {ℓ} (A : Type ℓ) : Type ℓ where
  ready : Result A → Attempt A
  wait : Attempt A

pub data Message : Type 0 where
  binary : List ℕ → Message
  string : List ℕ → Message

pub data ChannelState : Type 0 where
  open_ : ChannelState
  opening : ChannelState
  closed : ChannelState

abbrev pub to_message : InboundMessage → Message
to_message m = if m.text then string (from_utf8_lossy m.payload) else binary m.payload

abbrev state_of : Bool → Option Channel → ChannelState
state_of d none = if d then ChannelState.closed else opening
state_of d (some c) = if c.closed then ChannelState.closed else open_

unfoldable pub already_claimed : Option Channel → Bool
already_claimed none = false
already_claimed (some c) = c.stream_claimed

unfoldable pub is_closed_state : ChannelState → Bool
is_closed_state ChannelState.closed = true
is_closed_state open_ = false
is_closed_state opening = false

module _ {Peer : Type 0} where
  abbrev pub dead : Shared Peer → Bool
  dead s = s.closed || s.failed

  unfoldable pub channel_state : Shared Peer → ℕ → ChannelState
  channel_state s id = state_of (dead s) (channel_mut s id)

  unfoldable pub take_message :
      Shared Peer → Channel → Option InboundMessage × Channel → Attempt Message × Shared Peer
  take_message s c (some m, c') = (ready (ok (to_message m)), put_channel s c')
  take_message s c (none, c') =
      if c.overflowed
      then (ready (err receive_buffer_overflow), s)
      else if c.closed
      then (ready (err Error.closed), s)
      else (wait, s)

  unfoldable pub receive_from : Shared Peer → Option Channel → Attempt Message × Shared Peer
  receive_from s none = if dead s then (ready (err Error.closed), s) else (wait, s)
  receive_from s (some c) =
      if c.stream_claimed then (ready (err receiving_via_stream), s) else take_message s c (pop c)

  unfoldable pub receive : Shared Peer → ℕ → Attempt Message × Shared Peer
  unfolding receive_from take_message
  receive s id = receive_from s (channel_mut s id)

  unfoldable pub claim : Shared Peer → Option Channel → Shared Peer
  claim s none = s
  claim s (some c) = notify (put_channel s (record c { stream_claimed = true }))

  -- On success the inbound pump is started, which the result stands for.
  unfoldable pub receive_via_stream : Shared Peer → ℕ → Result (Unit {0}) × Shared Peer
  unfolding claim already_claimed is_closed_state
  receive_via_stream s id =
      if already_claimed (channel_mut s id)
      then (err receiving_via_stream, s)
      else if is_closed_state (channel_state s id)
      then (err Error.closed, s)
      else (ok tt, claim s (channel_mut s id))

  -- The pump that feeds the stream of `receive_via_stream`: `some (some m)` is delivered,
  -- `some none` ends the stream.
  unfoldable pub next_streamed :
      Shared Peer
      → Channel
      → Option InboundMessage × Channel
      → Option (Option InboundMessage) × Shared Peer
  next_streamed s c (some m, c') = (some (some m), put_channel s c')
  next_streamed s c (none, c') = if c.closed then (some none, s) else (none, s)

  unfoldable pub stream_from :
      Shared Peer → Option Channel → Option (Option InboundMessage) × Shared Peer
  stream_from s none = if dead s then (some none, s) else (none, s)
  stream_from s (some c) = next_streamed s c (pop c)

  unfoldable pub pump_receive : Shared Peer → ℕ → Option (Option InboundMessage) × Shared Peer
  unfolding stream_from next_streamed
  pump_receive s id = stream_from s (channel_mut s id)

  -- The loop of `wait_connected`, without the start of the pump that goes before it.
  unfoldable pub wait_pass : Shared Peer → ℕ → ℕ → Attempt (Unit {0})
  wait_pass s deadline now =
      if s.connected
      then ready (ok tt)
      else if s.failed || s.closed
      then ready (err Error.closed)
      else if leb deadline now
      then ready (err timed_out)
      else wait

-- A handle. `waker` is the queue that its sender fills: queues are numbered as they are made.
pub record DataChannel : Type 0 where
  pub id : ℕ
  pub label : String
  pub waker : ℕ

module _ {Peer : Type 0} (send_to : Peer → ℕ → Message → Result (Unit {0}) × Peer) where
  -- The core's result ends the wait; after a success the waker is sent on, which is the second
  -- result.
  unfoldable pub sent :
      DataChannel
      → Shared Peer
      → Result (Unit {0}) × Peer
      → (Attempt (Unit {0}) × Option ℕ) × Shared Peer
  sent dc s (ok u, p) = ((ready (ok u), some dc.waker), record s { peer = p })
  sent dc s (err e, p) = ((ready (err e), none), record s { peer = p })

  unfoldable pub send_in :
      ChannelState
      → DataChannel
      → Shared Peer
      → Message
      → (Attempt (Unit {0}) × Option ℕ) × Shared Peer
  unfolding sent
  send_in open_ dc s m = sent dc s (send_to s.peer dc.id m)
  send_in ChannelState.closed dc s m = ((ready (err Error.closed), none), s)
  send_in opening dc s m = ((wait, none), s)

  unfoldable pub send :
      DataChannel → Shared Peer → Message → (Attempt (Unit {0}) × Option ℕ) × Shared Peer
  unfolding sent send_in
  send dc s m = send_in (channel_state s dc.id) dc s m

-- `pump_incoming`: the next channel from the cursor on that is not the local one. Its handle has the
-- sender of a queue made for it, `fresh` being the number of the next queue.
unfoldable pub is_local : Option ℕ → ℕ → Bool
is_local none id = false
is_local (some l) id = id == l

unfoldable pub next_incoming : Option ℕ → ℕ → List Channel → Option DataChannel × List Channel
unfolding is_local
next_incoming l fresh [] = (none, [])
next_incoming l fresh (c ∷ cs) =
    let rest = next_incoming l fresh cs in
    if is_local l c.id
    then rest
    else (some (record { id = c.id; label = c.label; waker = fresh }), cs)
