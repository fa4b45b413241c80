-- ===== src/Host/Streams/Producing.antt =====
-- What the streams of wasmtime-impl/src/host.rs yield, over any polls.
use wasi_webrtc_datachannels.Base.{
  ◌≡◌, refl, ap, Bool, true, false, ◌||◌, ◌%◌, ◌^◌, Option, none, some, List, [], ◌∷◌, ◌++◌, map,
  length, if◌then◌else◌, arith,
}
use wasi_webrtc_datachannels.Host.Inbound.{InboundMessage}
use wasi_webrtc_datachannels.Host.Channel.{WebrtcResult, HostChannel}
use wasi_webrtc_datachannels.Host.Streams.{
  Produced, produced, dropped, cancelled, pending, StreamedMessage, streamed, next_queued,
  next_message, produce_message, Receiver, produce_item, take_receiver,
}

-- What the polls of a stream answer, each with whether it finishes.
unfoldable pub produce_all : List Bool → HostChannel → List (Produced StreamedMessage)
produce_all [] c = []
produce_all (finish ∷ polls) c = let (r, d) = produce_message finish c in r ∷ produce_all polls d

unfoldable pub produce_items {ℓ} :
    {A : Type ℓ} → List Bool → Option (Receiver A) → List (Produced A)
produce_items [] r = []
produce_items (finish ∷ polls) r = let (a, s) = produce_item finish r in a ∷ produce_items polls s

-- What a poll answers when nothing waits.
abbrev pub idle {ℓ} : {A : Type ℓ} → Bool → Bool → Produced A
idle over finish = if over then dropped else if finish then cancelled else pending

-- A channel whose wiring has succeeded.
abbrev pub wired : Bool → Bool → Bool → Bool → Bool → List InboundMessage → HostChannel
wired claimed started_tx fired ended overflowed q = record {
  wired = some (WebrtcResult.ok tt);
  stream_receiving = claimed;
  started_tx = started_tx;
  fired = fired;
  queue = q;
  ended = ended;
  overflowed = overflowed;
}

module _ (claimed started_tx fired ended overflowed : Bool) where
  -- The stream of `receive-via-stream` yields the messages that are queued on a wired channel, each
  -- once and in order, one a poll: its text flag, its payload, and as its length the payload's size
  -- modulo 2 ^ 32. Every poll after them tells that the stream has ended if the queue has ended or the
  -- connection is closed, and otherwise waits, or is cancelled where it is asked to finish.
  pub produce_all-queue :
      (taking later : List Bool) (q : List InboundMessage)
      → length taking ≡ length q
      → produce_all (taking ++ later) (wired claimed started_tx fired ended overflowed q)
        ≡ map
            (λ m. produced (record {
              is_string = m.is_string;
              length = length m.payload % 2 ^ 32;
              payload = m.payload;
            }))
            q
          ++ map (idle (ended || fired)) later
  unfolding produce_all produce_message next_message next_queued streamed
  produce_all-queue [] later [] n = idle_polls ended fired later
    where
      idle_polls :
          (over gone : Bool) (polls : List Bool)
          → produce_all polls (wired claimed started_tx gone over overflowed [])
            ≡ map (idle (over || gone)) polls
      idle_polls over gone [] = refl
      idle_polls true gone (finish ∷ polls) = ap (λ l. dropped ∷ l) (idle_polls true gone polls)
      idle_polls false true (finish ∷ polls) = ap (λ l. dropped ∷ l) (idle_polls false true polls)
      idle_polls false false (finish ∷ polls) =
          ap (λ l. idle false finish ∷ l) (idle_polls false false polls)
  produce_all-queue [] later (m ∷ q) n = absurd (omega arith)
  produce_all-queue (finish ∷ taking) later [] n = absurd (omega arith)
  produce_all-queue (finish ∷ taking) later (m ∷ q) n =
      ap (λ l. produced (streamed m) ∷ l) (produce_all-queue taking later q (omega arith))

ended_items :
    {A : Type 0} (polls : List Bool) → produce_items {A = A} polls none ≡ map (idle true) polls
unfolding produce_items produce_item
ended_items [] = refl
ended_items (finish ∷ polls) = ap (λ l. dropped ∷ l) (ended_items polls)

idle_items :
    {A : Type 0} (over : Bool) (polls : List Bool)
    → produce_items {A = A} polls (some (record { items = []; over = over }))
      ≡ map (idle over) polls
unfolding produce_items produce_item
idle_items over [] = refl
idle_items true (finish ∷ polls) = ap (λ l. dropped ∷ l) (ended_items polls)
idle_items false (finish ∷ polls) = ap (λ l. idle false finish ∷ l) (idle_items false polls)

items_once :
    {A : Type 0} (taking later : List Bool) (items : List A) (over : Bool)
    → length taking ≡ length items
    → produce_items (taking ++ later) (some (record { items = items; over = over }))
      ≡ map produced items ++ map (idle over) later
unfolding produce_items produce_item
items_once [] later [] over n = idle_items over later
items_once [] later (a ∷ items) over n = absurd (omega arith)
items_once (finish ∷ taking) later [] over n = absurd (omega arith)
items_once (finish ∷ taking) later (a ∷ items) over n =
    ap (λ l. produced a ∷ l) (items_once taking later items over (omega arith))

-- The local candidates and the incoming channels are streamed once: the first claim's stream yields
-- what waits, each once and in order, one a poll, and then has ended if its sender is gone, and
-- otherwise waits or is cancelled; the stream of a second claim has ended from its first poll on.
pub produce_items-claims :
    {A : Type 0} (taking later others : List Bool) (r : Receiver A)
    → length taking ≡ length r.items
    → let (first, slot) = take_receiver (some r) in
      let (second, rest) = take_receiver slot in
      (produce_items (taking ++ later) first ≡ map produced r.items ++ map (idle r.over) later)
      × (produce_items others second ≡ map (idle true) others)
unfolding take_receiver
produce_items-claims taking later others r n =
    (items_once taking later r.items r.over n, ended_items others)
