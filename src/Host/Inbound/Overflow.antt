-- ===== src/Host/Inbound/Overflow.antt =====
-- After an overflow wasmtime-impl/src/data_channel.rs accepts nothing more.
use wasi_webrtc_datachannels.Base.{
  ℕ, ◌≡◌, refl, ap, ◌∙◌, true, Option, none, some, List, [], ◌∷◌, length, ltb, if_cases,
}
use wasi_webrtc_datachannels.Host.Inbound.{
  InboundMessage, DataChannelEvent, on_open, on_message, on_close, other, saturating_add, Phase,
  polling, reserving, comparing, latching, raising, sending, closing, stopped, Inbound,
  spawn_channel_pump, on_event, pump_from, pump, take_from, take_next, release_of, release, Move,
  pumps, takes, releases, step, run,
}
use wasi_webrtc_datachannels.Host.Inbound.Order.{
  accepted, Ordered, Next, take_from-accepted, release_of-accepted, step-Ordered, run-Ordered,
  start-Ordered,
}

-- The reader has the same messages to get, and the flag is up.
abbrev pub Frozen : Inbound → Inbound → Type 0
Frozen c d = (accepted d ≡ accepted c) × (d.budget.overflowed ≡ true)

on_event-Frozen :
    (c : Inbound) (es : List DataChannelEvent)
    → c.budget.overflowed ≡ true
    → Frozen c (on_event c es)
unfolding on_event
on_event-Frozen c [] e = (refl, e)
on_event-Frozen c (on_open ∷ es) e = (refl, e)
on_event-Frozen c (on_message m ∷ es) e = (refl, e)
on_event-Frozen c (on_close ∷ es) e = (refl, e)
on_event-Frozen c (other ∷ es) e = (refl, e)

pump_from-Frozen :
    (c : Inbound) (p : Phase)
    → c.budget.overflowed ≡ true
    → Ordered p c.budget.overflowed c.seen (accepted c)
    → Frozen c (pump_from c p)
unfolding pump_from
pump_from-Frozen c polling e v = on_event-Frozen c c.events e
pump_from-Frozen c (reserving m) e v =
    if_cases (Frozen c) c.budget.overflowed _ _ (λ o. (refl, e)) (λ o. (refl, e))
pump_from-Frozen c (comparing m) e v =
    if_cases (Frozen c) (ltb c.budget.limit (saturating_add c.budget.buffered (length m.payload))) _
      _ (λ o. (refl, e)) (λ o. (refl, e))
pump_from-Frozen c latching e v = (refl, refl)
pump_from-Frozen c (raising m) e v = (refl, e)
pump_from-Frozen c (sending m) e v = let up = v.0 in cc
pump_from-Frozen c closing e v = (refl, e)
pump_from-Frozen c stopped e v = (refl, e)

take_from-flag :
    (c : Inbound) (t : Option InboundMessage) (q : List InboundMessage)
    → (take_from c t q).budget ≡ c.budget
unfolding take_from
take_from-flag c (some m) q = refl
take_from-flag c none [] = refl
take_from-flag c none (m ∷ q) = refl

release_of-flag :
    (c : Inbound) (t : Option InboundMessage)
    → (release_of c t).budget.overflowed ≡ c.budget.overflowed
unfolding release_of
release_of-flag c none = refl
release_of-flag c (some m) = refl

step-Frozen : (c : Inbound) (m : Move) → c.budget.overflowed ≡ true → Next c → Frozen c (step c m)
unfolding step pump take_next release
step-Frozen c pumps e v = pump_from-Frozen c c.phase e v
step-Frozen c takes e v = (
  take_from-accepted c c.taken c.queue refl refl,
  ap (λ b. b.overflowed) (take_from-flag c c.taken c.queue) ∙ e,
)
step-Frozen c releases e v = (release_of-accepted c c.taken refl, release_of-flag c c.taken ∙ e)

run-Frozen_from :
    (ms : List Move) (c : Inbound) → c.budget.overflowed ≡ true → Next c → Frozen c (run c ms)
unfolding run
run-Frozen_from [] c e v = (refl, e)
run-Frozen_from (m ∷ ms) c e v =
    let (a, up) = step-Frozen c m e v in
    let (b, up') = run-Frozen_from ms _ up (step-Ordered c m v) in (b ∙ a, up')

-- From the moment that the budget has overflowed, whatever arrives and however pump and reader
-- interleave, the flag stays up and what the reader has had and can still get stays the same: the
-- backlog is kept, and later messages are dropped.
pub run-Frozen :
    (limit : ℕ) (events : List DataChannelEvent) (before after : List Move)
    → let c = run (spawn_channel_pump limit events) before in
      c.budget.overflowed ≡ true → Frozen c (run c after)
run-Frozen limit events before after e =
    run-Frozen_from after _ e (run-Ordered before _ (start-Ordered limit events))
