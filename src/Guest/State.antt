-- ===== src/Guest/State.antt =====
-- The shared state of wasip3-impl/src/runtime.rs and the events of wasip3-impl/src/peer.rs. The
-- `rtc` core is a parameter: a type of peers, and the calls that the state makes on it. Texts that
-- the state only carries are byte lists.
pub mod Accounting
use wasi_webrtc_datachannels.Base.{
  ℕ, ◌+◌, ◌-◌, ◌*◌, ◌^◌, ◌%◌, ◌≡◌, String, Bool, true, false, Option, none, some, List, [], ◌∷◌,
  ◌++◌, length, map, ltb, leb, ◌==◌, nat_eq, if◌then◌else◌, not, ◌||◌, ◌&&◌,
}
use wasi_webrtc_datachannels.Base.Text.{bytes, parse_usize}

-- 8 MiB.
abbrev pub default_max_inbound_buffer_bytes : ℕ
default_max_inbound_buffer_bytes = 8 * 1024 * 1024

abbrev positive : Option ℕ → ℕ
positive none = default_max_inbound_buffer_bytes
positive (some n) = if ltb 0 n then n else default_max_inbound_buffer_bytes

abbrev parse_env : Option String → Option ℕ
parse_env none = none
parse_env (some value) = parse_usize 32 (bytes value)

-- From the environment variable, if it is set; the guest's `usize` has 32 bits.
unfoldable pub max_inbound_buffer_bytes : Option String → ℕ
max_inbound_buffer_bytes value = positive (parse_env value)

-- `usize` arithmetic, which wraps.
abbrev pub usize_add : ℕ → ℕ → ℕ
usize_add a b = (a + b) % 2 ^ 32

abbrev pub usize_sub : ℕ → ℕ → ℕ
usize_sub a b = (a + (2 ^ 32 - b)) % 2 ^ 32

pub record InboundMessage : Type 0 where
  pub text : Bool
  pub payload : List ℕ

pub record Channel : Type 0 where
  pub id : ℕ
  pub label : String
  pub inbox : List InboundMessage
  pub inbox_bytes : ℕ
  pub overflowed : Bool
  pub stream_claimed : Bool
  pub closed : Bool

abbrev pub new_channel : ℕ → String → Channel
new_channel id label = record {
  id = id;
  label = label;
  inbox = [];
  inbox_bytes = 0;
  overflowed = false;
  stream_claimed = false;
  closed = false;
}

unfoldable pub pop_front : Channel → List InboundMessage → Option InboundMessage × Channel
pop_front c [] = (none, c)
pop_front c (m ∷ ms) =
    (some m, record c { inbox = ms; inbox_bytes = usize_sub c.inbox_bytes (length m.payload) })

unfoldable pub pop : Channel → Option InboundMessage × Channel
unfolding pop_front
pop c = pop_front c c.inbox

pub data PeerEvent : Type 0 where
  connected : PeerEvent
  failed : PeerEvent
  closed : PeerEvent
  channel_open : ℕ → String → PeerEvent
  channel_closed : ℕ → PeerEvent
  message : ℕ → Bool → List ℕ → PeerEvent

pub record Shared (Peer : Type 0) : Type 0 where
  pub peer : Peer
  pub channels : List Channel
  pub connected : Bool
  pub failed : Bool
  pub closed : Bool
  pub close_requested : Bool
  pub shutdown_complete : Bool
  pub drain_deadline : Option ℕ
  pub version : ℕ

unfoldable pub find : ℕ → List Channel → Option Channel
find id [] = none
find id (c ∷ cs) = if c.id == id then some c else find id cs

-- A write through `channel_mut`.
unfoldable pub write : Channel → List Channel → List Channel
write d [] = []
write d (c ∷ cs) = if c.id == d.id then d ∷ cs else c ∷ write d cs

unfoldable pub close_channels : List Channel → List Channel
close_channels [] = []
close_channels (c ∷ cs) = record c { closed = true } ∷ close_channels cs

abbrev pub close_drain : ℕ
close_drain = 1000000000

module _ {Peer : Type 0} where
  abbrev pub channel_mut : Shared Peer → ℕ → Option Channel
  channel_mut s id = find id s.channels

  abbrev pub put_channel : Shared Peer → Channel → Shared Peer
  put_channel s c = record s { channels = write c s.channels }

  -- `StateWatch::notify`: the wakers are the waiting tasks, which compare the version they saw.
  unfoldable pub notify : Shared Peer → Shared Peer
  notify s = record s { version = (s.version + 1) % 2 ^ 64 }

  unfoldable pub begin_close : Shared Peer → ℕ → Shared Peer
  unfolding notify
  begin_close s now =
      if s.closed || s.failed
      then s
      else notify (record s {
        closed = true;
        close_requested = true;
        channels = close_channels s.channels;
        drain_deadline = some (now + close_drain);
      })

  open_channel : Shared Peer → ℕ → String → Option Channel → Shared Peer
  open_channel s id label (some c) = s
  open_channel s id label none =
      let c = record (new_channel id label) { closed = s.closed || s.failed } in
      record s { channels = s.channels ++ c ∷ [] }

  close_channel : Shared Peer → Option Channel → Shared Peer
  close_channel s none = s
  close_channel s (some c) = put_channel s (record c { closed = true })

module _ {Peer : Type 0} (close_data_channel : Peer → ℕ → Peer) (limit : ℕ) where
  -- The message arm: dropped, overflowing or buffered.
  deliver : Shared Peer → ℕ → Bool → List ℕ → Option Channel → Shared Peer
  deliver s id text payload none = s
  deliver s id text payload (some c) =
      if c.overflowed || c.closed
      then s
      else if ltb limit (usize_add c.inbox_bytes (length payload))
      then record (put_channel s (record c { overflowed = true; closed = true })) {
        peer = close_data_channel s.peer id;
      }
      else put_channel s (record c {
        inbox_bytes = usize_add c.inbox_bytes (length payload);
        inbox = c.inbox ++ record { text = text; payload = payload } ∷ [];
      })

  unfoldable pub apply_event : Shared Peer → PeerEvent → Shared Peer
  unfolding open_channel close_channel deliver
  apply_event s connected = record s { connected = true }
  apply_event s failed = record s { failed = true; channels = close_channels s.channels }
  apply_event s closed = record s {
    closed = true;
    shutdown_complete = true;
    channels = close_channels s.channels;
  }
  apply_event s (channel_open id label) = open_channel s id label (channel_mut s id)
  apply_event s (channel_closed id) = close_channel s (channel_mut s id)
  apply_event s (message id text payload) = deliver s id text payload (channel_mut s id)

  unfoldable pub apply_events : Shared Peer → List PeerEvent → Shared Peer
  apply_events s [] = s
  apply_events s (e ∷ es) = apply_events (apply_event s e) es
