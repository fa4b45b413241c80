-- ===== src/Host/Streams.antt =====
-- The stream ends of the Wasmtime host, wasmtime-impl/src/host.rs: what each does when it is polled.
-- A poll of a consumer brings what the writer has made available.
pub mod Forwarding
pub mod Producing
use wasi_webrtc_datachannels.Base.{
  ℕ, ◌%◌, ◌^◌, Bool, true, false, Option, none, some, List, [], ◌∷◌, ◌++◌, map, length,
  if◌then◌else◌,
}
use wasi_webrtc_datachannels.Host.Inbound.{InboundMessage}
use wasi_webrtc_datachannels.Host.Channel.{WebrtcResult, ok, err, PendingSend, HostChannel}

pub data Consumed : Type 0 where
  completed cancelled pending : Consumed

-- `handed` is what went through `done_tx`, which is taken by then.
pub record ByteCollector : Type 0 where
  pub buf : List ℕ
  pub handed : Option (List ℕ)

abbrev hand : ByteCollector → Option (List ℕ) → ByteCollector
hand c none = record { buf = []; handed = some c.buf }
hand c (some sent) = c

-- Also what a drop does.
unfoldable pub finish_bytes : ByteCollector → ByteCollector
finish_bytes c = hand c c.handed

unfoldable pub consume_bytes : List ℕ → Bool → ByteCollector → Consumed × ByteCollector
unfolding finish_bytes
consume_bytes (b ∷ chunk) finish c = (completed, record c { buf = c.buf ++ b ∷ chunk })
consume_bytes [] finish c = if finish then (cancelled, finish_bytes c) else (pending, c)

-- The payload of a message: the chunks of its polls, and whether a poll at the end finishes it before
-- the drop.
pub record StreamMessage : Type 0 where
  pub is_string : Bool
  pub length : ℕ
  pub chunks : List (List ℕ)
  pub finishes : Bool
  pub closed : Bool

unfoldable pub consume_chunks : List (List ℕ) → ByteCollector → ByteCollector
unfolding consume_bytes
consume_chunks [] c = c
consume_chunks (chunk ∷ chunks) c = consume_chunks chunks (consume_bytes chunk false c).1

abbrev or_empty : Option (List ℕ) → List ℕ
or_empty none = []
or_empty (some bs) = bs

-- What the sending loop gets of a message; `closed` is what the close signal says when its turn comes.
unfoldable pub collected : StreamMessage → PendingSend
unfolding consume_chunks consume_bytes finish_bytes
collected m =
    let c = consume_chunks m.chunks (record { buf = []; handed = none }) in
    let d = if m.finishes then (consume_bytes [] true c).1 else c in
    record {
      is_string = m.is_string;
      length = m.length;
      payload = or_empty (finish_bytes d).handed;
      closed = m.closed;
    }

unfoldable pub consume_messages :
    List StreamMessage → Bool → List PendingSend → Consumed × List PendingSend
unfolding collected
consume_messages (m ∷ ms) finish out = (completed, out ++ map collected (m ∷ ms))
consume_messages [] finish out = if finish then (cancelled, out) else (pending, out)

-- All polls of the stream, each with what is available and whether it finishes.
unfoldable pub forward : List (List StreamMessage × Bool) → List PendingSend → List PendingSend
unfolding consume_messages
forward [] out = out
forward ((ms, finish) ∷ polls) out = forward polls (consume_messages ms finish out).1

pub data Produced {ℓ} (A : Type ℓ) : Type ℓ where
  produced : A → Produced A
  dropped : Produced A
  cancelled : Produced A
  pending : Produced A

-- A message of `receive-via-stream`, with its whole payload.
pub record StreamedMessage : Type 0 where
  pub is_string : Bool
  pub length : ℕ
  pub payload : List ℕ

unfoldable pub streamed : InboundMessage → StreamedMessage
streamed m = record {
  is_string = m.is_string;
  length = length m.payload % 2 ^ 32;
  payload = m.payload;
}

-- The race of the next message against the end of the connection; `none` where both wait.
abbrev or_closed : HostChannel → Option (Option InboundMessage) × HostChannel
or_closed c = if c.fired then (some none, c) else (none, c)

unfoldable pub next_queued :
    HostChannel → List InboundMessage → Option (Option InboundMessage) × HostChannel
next_queued c (m ∷ q) = (some (some m), record c { queue = q })
next_queued c [] = if c.ended then (some none, c) else or_closed c

unfoldable pub next_message :
    HostChannel → Option (WebrtcResult (Unit {0})) → Option (Option InboundMessage) × HostChannel
unfolding next_queued
next_message c none = or_closed c
next_message c (some (err e)) = (some none, c)
next_message c (some (ok u)) = next_queued c c.queue

abbrev poll_of {ℓ} :
    {S : Type ℓ} → Bool → Option (Option InboundMessage) × S → Produced StreamedMessage × S
poll_of finish (none, c) = (if finish then cancelled else pending, c)
poll_of finish (some none, c) = (dropped, c)
poll_of finish (some (some m), c) = (produced (streamed m), c)

unfoldable pub produce_message : Bool → HostChannel → Produced StreamedMessage × HostChannel
unfolding next_message streamed
produce_message finish c = poll_of finish (next_message c c.wired)

-- A receiver of local candidates or of incoming channels: what waits, and whether its sender is gone.
pub record Receiver {ℓ} (A : Type ℓ) : Type ℓ where
  pub items : List A
  pub over : Bool

-- The first claim of a stream finds the receiver, and no later one.
unfoldable pub take_receiver {ℓ} :
    {A : Type ℓ} → Option (Receiver A) → Option (Receiver A) × Option (Receiver A)
take_receiver slot = (slot, none)

abbrev poll_items {ℓ} : {A : Type ℓ} → Bool → List A → Bool → Produced A × Option (Receiver A)
poll_items finish (a ∷ items) over = (produced a, some (record { items = items; over = over }))
poll_items finish [] true = (dropped, none)
poll_items finish [] false =
    (if finish then cancelled else pending, some (record { items = []; over = false }))

unfoldable pub produce_item {ℓ} :
    {A : Type ℓ} → Bool → Option (Receiver A) → Produced A × Option (Receiver A)
produce_item finish none = (dropped, none)
produce_item finish (some r) = poll_items finish r.items r.over
