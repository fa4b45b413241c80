-- ===== src/Host/Inbound.antt =====
-- The inbound side of a channel in wasmtime-impl/src/data_channel.rs: the pump task, which reserves
-- bytes of the budget and queues messages, and the reader, which takes them and releases the bytes.
-- The two run on different threads and share atomics, so each atomic access and each access of the
-- queue is one step. `usize` has 64 bits, and the atomics wrap. The events that `poll` returns are a
-- list, and `None` is its end.
pub mod Budget
pub mod Order
pub mod Overflow
use wasi_webrtc_datachannels.Base.{
  ℕ, suc, ◌+◌, ◌-◌, ◌%◌, ◌^◌, Bool, true, false, Option, none, some, List, [], ◌∷◌, ◌++◌, length,
  min, ltb, if◌then◌else◌,
}

pub record InboundMessage : Type 0 where
  pub is_string : Bool
  pub payload : List ℕ

-- `other` stands for the events that the pump ignores.
pub data DataChannelEvent : Type 0 where
  on_open : DataChannelEvent
  on_message : InboundMessage → DataChannelEvent
  on_close : DataChannelEvent
  other : DataChannelEvent

pub record InboundBudget : Type 0 where
  pub limit : ℕ
  pub buffered : ℕ
  pub overflowed : Bool

abbrev pub saturating_add : ℕ → ℕ → ℕ
saturating_add a b = min (a + b) (2 ^ 64 - 1)

abbrev pub fetch_add : InboundBudget → ℕ → InboundBudget
fetch_add b len = record b { buffered = (b.buffered + len) % 2 ^ 64 }

abbrev pub fetch_sub : InboundBudget → ℕ → InboundBudget
fetch_sub b len = record b { buffered = (b.buffered + (2 ^ 64 - len)) % 2 ^ 64 }

-- Where the pump stands: at `poll`; in `reserve`, before the flag is read, before the count is read,
-- before the flag is set, before the count is raised; before the message is sent; before the channel
-- is closed; or at its end.
pub data Phase : Type 0 where
  polling : Phase
  reserving : InboundMessage → Phase
  comparing : InboundMessage → Phase
  latching : Phase
  raising : InboundMessage → Phase
  sending : InboundMessage → Phase
  closing : Phase
  stopped : Phase

-- `taken` is the message that the reader has taken out of the queue and not yet released; the reader
-- holds the queue's lock meanwhile. `seen` and `delivered` log the messages that `poll` returned and
-- that the reader returned.
pub record Inbound : Type 0 where
  pub budget : InboundBudget
  pub phase : Phase
  pub events : List DataChannelEvent
  pub opened : Bool
  pub queue : List InboundMessage
  pub taken : Option InboundMessage
  pub closes : ℕ
  pub seen : List InboundMessage
  pub delivered : List InboundMessage

unfoldable pub spawn_channel_pump : ℕ → List DataChannelEvent → Inbound
spawn_channel_pump limit events = record {
  budget = record { limit = limit; buffered = 0; overflowed = false };
  phase = polling;
  events = events;
  opened = false;
  queue = [];
  taken = none;
  closes = 0;
  seen = [];
  delivered = [];
}

unfoldable pub on_event : Inbound → List DataChannelEvent → Inbound
on_event c [] = record c { phase = stopped }
on_event c (on_open ∷ es) = record c { events = es; opened = true; phase = polling }
on_event c (on_message m ∷ es) = record c {
  events = es;
  phase = reserving m;
  seen = c.seen ++ m ∷ [];
}
on_event c (on_close ∷ es) = record c { events = es; phase = stopped }
on_event c (other ∷ es) = record c { events = es; phase = polling }

unfoldable pub pump_from : Inbound → Phase → Inbound
unfolding on_event
pump_from c polling = on_event c c.events
pump_from c (reserving m) =
    if c.budget.overflowed then record c { phase = closing } else record c { phase = comparing m }
pump_from c (comparing m) =
    if ltb c.budget.limit (saturating_add c.budget.buffered (length m.payload))
    then record c { phase = latching }
    else record c { phase = raising m }
pump_from c latching = record c { budget = record c.budget { overflowed = true }; phase = closing }
pump_from c (raising m) = record c {
  budget = fetch_add c.budget (length m.payload);
  phase = sending m;
}
pump_from c (sending m) = record c { queue = c.queue ++ m ∷ []; phase = polling }
pump_from c closing = record c { closes = suc c.closes; phase = polling }
pump_from c stopped = record c { phase = stopped }

unfoldable pub pump : Inbound → Inbound
pump c = pump_from c c.phase

unfoldable pub take_from : Inbound → Option InboundMessage → List InboundMessage → Inbound
take_from c (some m) q = c
take_from c none [] = c
take_from c none (m ∷ q) = record c { queue = q; taken = some m }

-- `rx.next()` of `InboundQueue::next`, where it does not wait.
unfoldable pub take_next : Inbound → Inbound
unfolding take_from
take_next c = take_from c c.taken c.queue

unfoldable pub release_of : Inbound → Option InboundMessage → Inbound
release_of c none = c
release_of c (some m) = record c {
  budget = fetch_sub c.budget (length m.payload);
  taken = none;
  delivered = c.delivered ++ m ∷ [];
}

-- The rest of `InboundQueue::next`.
unfoldable pub release : Inbound → Inbound
unfolding release_of
release c = release_of c c.taken

pub data Move : Type 0 where
  pumps : Move
  takes : Move
  releases : Move

unfoldable pub step : Inbound → Move → Inbound
step c pumps = pump c
step c takes = take_next c
step c releases = release c

unfoldable pub run : Inbound → List Move → Inbound
run c [] = c
run c (m ∷ ms) = run (step c m) ms
