-- ===== src/Host/Inbound/Order.antt =====
-- What the reader of wasmtime-impl/src/data_channel.rs gets, and in which order.
use wasi_webrtc_datachannels.Base.{
  ℕ, ◌≡◌, refl, sym, subst, ap, ◌∙◌, Bool, true, false, Option, none, some, List, [], ◌∷◌, ◌++◌,
  length, append_assoc, append-nil, ltb, if_cases,
}
use wasi_webrtc_datachannels.Host.Inbound.{
  InboundMessage, DataChannelEvent, on_open, on_message, on_close, other, saturating_add, Phase,
  polling, reserving, comparing, latching, raising, sending, closing, stopped, Inbound,
  spawn_channel_pump, on_event, pump_from, pump, take_from, take_next, release_of, release, Move,
  pumps, takes, releases, step, run,
}

abbrev pub Prefix : List InboundMessage → List InboundMessage → Type 0
Prefix xs ys = (rest : List InboundMessage) × (ys ≡ xs ++ rest)

abbrev pub held_list : Option InboundMessage → List InboundMessage
held_list none = []
held_list (some m) = m ∷ []

-- What has been queued since the start.
abbrev pub accepted : Inbound → List InboundMessage
accepted c = c.delivered ++ held_list c.taken ++ c.queue

-- What was accepted against what arrived: all of it, and after an overflow a prefix.
abbrev pub Settled : Bool → List InboundMessage → List InboundMessage → Type 0
Settled false seen acc = seen ≡ acc
Settled true seen acc = Prefix acc seen

abbrev pub Pending : Bool → InboundMessage → List InboundMessage → List InboundMessage → Type 0
Pending false m seen acc = seen ≡ acc ++ m ∷ []
Pending true m seen acc = Prefix acc seen

abbrev pub Ordered : Phase → Bool → List InboundMessage → List InboundMessage → Type 0
Ordered polling o seen acc = Settled o seen acc
Ordered stopped o seen acc = Settled o seen acc
Ordered (reserving m) o seen acc = Pending o m seen acc
Ordered (comparing m) o seen acc = (o ≡ false) × (seen ≡ acc ++ m ∷ [])
Ordered (raising m) o seen acc = (o ≡ false) × (seen ≡ acc ++ m ∷ [])
Ordered (sending m) o seen acc = (o ≡ false) × (seen ≡ acc ++ m ∷ [])
Ordered latching o seen acc = (o ≡ false) × Prefix acc seen
Ordered closing o seen acc = (o ≡ true) × Prefix acc seen

abbrev pub Next : Inbound → Type 0
Next c = Ordered c.phase c.budget.overflowed c.seen (accepted c)

arrives :
    (o : Bool) (m : InboundMessage) (seen acc : List InboundMessage)
    → Settled o seen acc
    → Pending o m (seen ++ m ∷ []) acc
arrives false m seen acc e = ap (λ xs. xs ++ m ∷ []) e
arrives true m seen acc (rest, e) =
    (rest ++ m ∷ [], ap (λ xs. xs ++ m ∷ []) e ∙ append_assoc acc rest (m ∷ []))

on_event-Ordered :
    (c : Inbound) (es : List DataChannelEvent)
    → Ordered polling c.budget.overflowed c.seen (accepted c)
    → Next (on_event c es)
unfolding on_event
on_event-Ordered c [] v = v
on_event-Ordered c (on_open ∷ es) v = v
on_event-Ordered c (on_message m ∷ es) v = arrives c.budget.overflowed m c.seen (accepted c) v
on_event-Ordered c (on_close ∷ es) v = v
on_event-Ordered c (other ∷ es) v = v

-- The flag decides between refusing the message and going on.
refuses :
    (o : Bool) (m : InboundMessage) (seen acc : List InboundMessage)
    → o ≡ true
    → Pending o m seen acc
    → (o ≡ true) × Prefix acc seen
refuses true m seen acc e v = (refl, v)
refuses false m seen acc e v = cc

goes_on :
    (o : Bool) (m : InboundMessage) (seen acc : List InboundMessage)
    → o ≡ false
    → Pending o m seen acc
    → (o ≡ false) × (seen ≡ acc ++ m ∷ [])
goes_on true m seen acc e v = cc
goes_on false m seen acc e v = (refl, v)

settles :
    (o : Bool) (seen acc : List InboundMessage) → o ≡ true → Prefix acc seen → Settled o seen acc
settles true seen acc e v = v
settles false seen acc e v = cc

settles_exact :
    (o : Bool) (seen acc : List InboundMessage) → o ≡ false → seen ≡ acc → Settled o seen acc
settles_exact true seen acc e v = cc
settles_exact false seen acc e v = v

queued :
    (d h q : List InboundMessage) (m : InboundMessage)
    → (d ++ h ++ q) ++ m ∷ [] ≡ d ++ h ++ (q ++ m ∷ [])
queued d h q m = append_assoc (d ++ h) q (m ∷ [])

took : (d q : List InboundMessage) (m : InboundMessage) → (d ++ m ∷ []) ++ q ≡ (d ++ []) ++ (m ∷ q)
took d q m = append_assoc d (m ∷ []) q ∙ ap (λ xs. xs ++ (m ∷ q)) (sym (append-nil d))

pump_from-Ordered :
    (c : Inbound) (p : Phase)
    → Ordered p c.budget.overflowed c.seen (accepted c)
    → Next (pump_from c p)
unfolding pump_from
pump_from-Ordered c polling v = on_event-Ordered c c.events v
pump_from-Ordered c (reserving m) v =
    if_cases Next c.budget.overflowed _ _
      (λ o. refuses c.budget.overflowed m c.seen (accepted c) o v)
      (λ o. goes_on c.budget.overflowed m c.seen (accepted c) o v)
pump_from-Ordered c (comparing m) v =
    if_cases Next (ltb c.budget.limit (saturating_add c.budget.buffered (length m.payload))) _ _
      (λ o. (v.0, (m ∷ [], v.1))) (λ o. v)
pump_from-Ordered c latching v = (refl, v.1)
pump_from-Ordered c (raising m) v = v
pump_from-Ordered c (sending m) v =
    settles_exact c.budget.overflowed c.seen _ v.0
      (v.1 ∙ queued c.delivered (held_list c.taken) c.queue m)
pump_from-Ordered c closing v = settles c.budget.overflowed c.seen (accepted c) v.0 v.1
pump_from-Ordered c stopped v = v

pub take_from-accepted :
    (c : Inbound) (t : Option InboundMessage) (q : List InboundMessage)
    → c.taken ≡ t
    → c.queue ≡ q
    → accepted (take_from c t q) ≡ accepted c
unfolding take_from
take_from-accepted c (some m) q et eq = refl
take_from-accepted c none [] et eq = refl
take_from-accepted c none (m ∷ q) et eq = rw (et, eq) (took c.delivered q m)

pub release_of-accepted :
    (c : Inbound) (t : Option InboundMessage) → c.taken ≡ t → accepted (release_of c t) ≡ accepted c
unfolding release_of
release_of-accepted c none e = refl
release_of-accepted c (some m) e =
    rw e (ap (λ xs. xs ++ c.queue) (append-nil (c.delivered ++ m ∷ [])))

abbrev Ordering : Inbound → List InboundMessage → Type 0
Ordering c acc = Ordered c.phase c.budget.overflowed c.seen acc

take_from-Ordered :
    (c : Inbound) (t : Option InboundMessage) (q : List InboundMessage)
    → c.taken ≡ t
    → c.queue ≡ q
    → Next c
    → Next (take_from c t q)
unfolding take_from
take_from-Ordered c (some m) q et eq v = v
take_from-Ordered c none [] et eq v = v
take_from-Ordered c none (m ∷ q) et eq v =
    subst (Ordering c) (sym (take_from-accepted c none (m ∷ q) et eq)) v

release_of-Ordered :
    (c : Inbound) (t : Option InboundMessage) → c.taken ≡ t → Next c → Next (release_of c t)
unfolding release_of
release_of-Ordered c none e v = v
release_of-Ordered c (some m) e v = subst (Ordering c) (sym (release_of-accepted c (some m) e)) v

pub step-Ordered : (c : Inbound) (m : Move) → Next c → Next (step c m)
unfolding step pump take_next release
step-Ordered c pumps v = pump_from-Ordered c c.phase v
step-Ordered c takes v = take_from-Ordered c c.taken c.queue refl refl v
step-Ordered c releases v = release_of-Ordered c c.taken refl v

pub run-Ordered : (ms : List Move) (c : Inbound) → Next c → Next (run c ms)
unfolding run
run-Ordered [] c v = v
run-Ordered (m ∷ ms) c v = run-Ordered ms _ (step-Ordered c m v)

pub start-Ordered :
    (limit : ℕ) (events : List DataChannelEvent) → Next (spawn_channel_pump limit events)
unfolding spawn_channel_pump
start-Ordered limit events = refl

Settled-Prefix : (o : Bool) (seen acc : List InboundMessage) → Settled o seen acc → Prefix acc seen
Settled-Prefix false seen acc e = ([], e ∙ sym (append-nil acc))
Settled-Prefix true seen acc v = v

Pending-Prefix :
    (o : Bool) (m : InboundMessage) (seen acc : List InboundMessage)
    → Pending o m seen acc
    → Prefix acc seen
Pending-Prefix false m seen acc e = (m ∷ [], e)
Pending-Prefix true m seen acc v = v

Ordered-Prefix :
    (p : Phase) (o : Bool) (seen acc : List InboundMessage) → Ordered p o seen acc → Prefix acc seen
Ordered-Prefix polling o seen acc v = Settled-Prefix o seen acc v
Ordered-Prefix stopped o seen acc v = Settled-Prefix o seen acc v
Ordered-Prefix (reserving m) o seen acc v = Pending-Prefix o m seen acc v
Ordered-Prefix (comparing m) o seen acc v = (m ∷ [], v.1)
Ordered-Prefix (raising m) o seen acc v = (m ∷ [], v.1)
Ordered-Prefix (sending m) o seen acc v = (m ∷ [], v.1)
Ordered-Prefix latching o seen acc v = v.1
Ordered-Prefix closing o seen acc v = v.1

-- What the reader has returned is a prefix of what arrived: no message is lost between two that are
-- delivered, none comes twice, and the order is kept, for every interleaving of pump and reader.
pub run-delivered :
    (limit : ℕ) (events : List DataChannelEvent) (ms : List Move)
    → let c = run (spawn_channel_pump limit events) ms in Prefix c.delivered c.seen
run-delivered limit events ms =
    let c = run (spawn_channel_pump limit events) ms in
    let (rest, e) =
      Ordered-Prefix c.phase c.budget.overflowed c.seen (accepted c)
        (run-Ordered ms _ (start-Ordered limit events)) in
    (held_list c.taken ++ c.queue ++ rest, e ∙ regroup c.delivered (held_list c.taken) c.queue rest)
  where
    regroup : (d h q r : List InboundMessage) → d ++ h ++ q ++ r ≡ d ++ (h ++ q ++ r)
    regroup d h q r = ap (λ xs. xs ++ r) (append_assoc d h q) ∙ append_assoc d (h ++ q) r

Ordered-stopped :
    (p : Phase) (o : Bool) (seen acc : List InboundMessage)
    → p ≡ stopped
    → o ≡ false
    → Ordered p o seen acc
    → seen ≡ acc
Ordered-stopped stopped false seen acc e f v = v
Ordered-stopped stopped true seen acc e f v = cc
Ordered-stopped polling o seen acc e f v = cc
Ordered-stopped (reserving m) o seen acc e f v = cc
Ordered-stopped (comparing m) o seen acc e f v = cc
Ordered-stopped (raising m) o seen acc e f v = cc
Ordered-stopped (sending m) o seen acc e f v = cc
Ordered-stopped latching o seen acc e f v = cc
Ordered-stopped closing o seen acc e f v = cc

-- Where nothing overflowed, the reader that has drained the queue of a stopped pump has returned
-- every message that arrived.
pub run_drained :
    (limit : ℕ) (events : List DataChannelEvent) (ms : List Move)
    → let c = run (spawn_channel_pump limit events) ms in
      c.budget.overflowed ≡ false
      → c.phase ≡ stopped
      → c.taken ≡ none
      → c.queue ≡ []
      → c.delivered ≡ c.seen
run_drained limit events ms flag at_end none_held drained =
    let c = run (spawn_channel_pump limit events) ms in
    let e =
      Ordered-stopped c.phase c.budget.overflowed c.seen (accepted c) at_end flag
        (run-Ordered ms _ (start-Ordered limit events)) in
    sym (e ∙ cc (ap held_list none_held, drained, append-nil c.delivered))
