-- ===== src/Host/Inbound/Budget.antt =====
-- The byte budget of wasmtime-impl/src/data_channel.rs under every interleaving of pump and reader.
use wasi_webrtc_datachannels.Base.{
  ℕ, ◌+◌, ◌-◌, ◌≤◌, ◌<◌, ◌^◌, ◌%◌, ◌≡◌, refl, ap, false, Option, none, some, List, [], ◌∷◌, ◌++◌,
  length, ltb, arith, if_cases,
}
use wasi_webrtc_datachannels.Host.Inbound.{
  InboundMessage, DataChannelEvent, on_open, on_message, on_close, other, InboundBudget, fetch_sub,
  saturating_add, Phase, polling, reserving, comparing, latching, raising, sending, closing,
  stopped, Inbound, spawn_channel_pump, on_event, pump_from, pump, take_from, take_next, release_of,
  release, Move, pumps, takes, releases, step, run,
}

abbrev pub total : List InboundMessage → ℕ
total [] = 0
total (m ∷ ms) = length m.payload + total ms

total-append : (xs ys : List InboundMessage) → total (xs ++ ys) ≡ total xs + total ys
total-append [] ys = omega arith
total-append (x ∷ xs) ys = omega (arith, total-append xs ys)

-- The bytes of the message that the reader holds.
abbrev pub held : Option InboundMessage → ℕ
held none = 0
held (some m) = length m.payload

-- The bytes that the pump has counted and not yet queued.
abbrev pub in_hand : Phase → ℕ
in_hand (sending m) = length m.payload
in_hand p = 0

-- A message that has passed the comparison fits.
abbrev Admitted : InboundBudget → Phase → Type 0
Admitted b (raising m) = b.buffered + length m.payload ≤ b.limit
Admitted b p = Unit

record IsAccounted (limit : ℕ) (c : Inbound) (p : Phase) : Type 0 where
  counted : c.budget.buffered ≡ total c.queue + held c.taken + in_hand p
  bounded : c.budget.buffered ≤ limit
  admitted : Admitted c.budget p
  fixed : c.budget.limit ≡ limit

admits :
    (b len limit : ℕ)
    → limit < 2 ^ 64 - 1
    → ltb limit (saturating_add b len) ≡ false
    → b + len ≤ limit
admits b len limit word h = ground arith

released : (b len rest : ℕ) → b ≡ len + rest → b < 2 ^ 64 → (b + (2 ^ 64 - len)) % 2 ^ 64 ≡ rest
released b len rest e word = omega (arith, e, word)

less-Admitted :
    (b d : InboundBudget) (p : Phase)
    → d.buffered ≤ b.buffered
    → d.limit ≡ b.limit
    → Admitted b p
    → Admitted d p
less-Admitted b d (raising m) le e a = omega (arith, le, e, a)
less-Admitted b d polling le e a = tt
less-Admitted b d (reserving m) le e a = tt
less-Admitted b d (comparing m) le e a = tt
less-Admitted b d latching le e a = tt
less-Admitted b d (sending m) le e a = tt
less-Admitted b d closing le e a = tt
less-Admitted b d stopped le e a = tt

module _ (limit : ℕ) (word : limit < 2 ^ 64 - 1) where
  -- The same state in another phase with nothing in hand.
  move-IsAccounted :
      (c d : Inbound) (p q : Phase)
      → IsAccounted limit c p
      → d.budget ≡ c.budget
      → d.queue ≡ c.queue
      → d.taken ≡ c.taken
      → in_hand p ≡ 0
      → in_hand q ≡ 0
      → Admitted d.budget q
      → IsAccounted limit d q
  move-IsAccounted c d p q v b e t hp hq a = record {
    counted = cc (v.counted, b, e, t, hp, hq);
    bounded = let same = ap (λ x. x.buffered) b in omega (arith, same, v.bounded);
    admitted = a;
    fixed = cc (v.fixed, b);
  }

  on_event-IsAccounted :
      (c : Inbound) (es : List DataChannelEvent)
      → IsAccounted limit c polling
      → IsAccounted limit (on_event c es) (on_event c es).phase
  unfolding on_event
  on_event-IsAccounted c [] v = move-IsAccounted c _ polling stopped v refl refl refl refl refl tt
  on_event-IsAccounted c (on_open ∷ es) v =
      move-IsAccounted c _ polling polling v refl refl refl refl refl tt
  on_event-IsAccounted c (on_message m ∷ es) v =
      move-IsAccounted c _ polling (reserving m) v refl refl refl refl refl tt
  on_event-IsAccounted c (on_close ∷ es) v =
      move-IsAccounted c _ polling stopped v refl refl refl refl refl tt
  on_event-IsAccounted c (other ∷ es) v =
      move-IsAccounted c _ polling polling v refl refl refl refl refl tt

  abbrev Next : Inbound → Type 0
  Next c = IsAccounted limit c c.phase

  pump_from-IsAccounted : (c : Inbound) (p : Phase) → IsAccounted limit c p → Next (pump_from c p)
  unfolding pump_from
  pump_from-IsAccounted c polling v = on_event-IsAccounted c c.events v
  pump_from-IsAccounted c (reserving m) v =
      if_cases Next c.budget.overflowed _ _
        (λ o. move-IsAccounted c _ (reserving m) closing v refl refl refl refl refl tt)
        (λ o. move-IsAccounted c _ (reserving m) (comparing m) v refl refl refl refl refl tt)
  pump_from-IsAccounted c (comparing m) v =
      if_cases Next (ltb c.budget.limit (saturating_add c.budget.buffered (length m.payload))) _ _
        (λ o. move-IsAccounted c _ (comparing m) latching v refl refl refl refl refl tt)
        (λ fits.
          move-IsAccounted c _ (comparing m) (raising m) v refl refl refl refl refl
            (admits _ _ _ (omega (arith, v.fixed, word)) fits))
  pump_from-IsAccounted c latching v = record {
    counted = v.counted;
    bounded = v.bounded;
    admitted = tt;
    fixed = v.fixed;
  }
  pump_from-IsAccounted c (raising m) v = record {
    counted = omega (arith, v.counted, v.admitted, v.fixed, word);
    bounded = omega (arith, v.admitted, v.fixed, word);
    admitted = tt;
    fixed = v.fixed;
  }
  pump_from-IsAccounted c (sending m) v = record {
    counted = omega (arith, v.counted, total-append c.queue (m ∷ []));
    bounded = v.bounded;
    admitted = tt;
    fixed = v.fixed;
  }
  pump_from-IsAccounted c closing v =
      move-IsAccounted c _ closing polling v refl refl refl refl refl tt
  pump_from-IsAccounted c stopped v =
      move-IsAccounted c _ stopped stopped v refl refl refl refl refl tt

  take_from-IsAccounted :
      (c : Inbound) (t : Option InboundMessage) (q : List InboundMessage)
      → c.taken ≡ t
      → c.queue ≡ q
      → Next c
      → Next (take_from c t q)
  unfolding take_from
  take_from-IsAccounted c (some m) q et eq v = v
  take_from-IsAccounted c none [] et eq v = v
  take_from-IsAccounted c none (m ∷ q) et eq v = record {
    counted = omega (arith, v.counted, ap held et, ap total eq);
    bounded = v.bounded;
    admitted = v.admitted;
    fixed = v.fixed;
  }

  release_of-IsAccounted :
      (c : Inbound) (t : Option InboundMessage) → c.taken ≡ t → Next c → Next (release_of c t)
  unfolding release_of
  release_of-IsAccounted c none e v = v
  release_of-IsAccounted c (some m) e v =
      let exact =
        released c.budget.buffered (length m.payload) (total c.queue + in_hand c.phase)
          (omega (arith, v.counted, ap held e)) (omega (arith, v.bounded, word)) in
      let shrinks : (fetch_sub c.budget (length m.payload)).buffered ≤ c.budget.buffered =
        omega (arith, exact, v.counted) in
      record {
        counted = omega (arith, exact);
        bounded = omega (arith, shrinks, v.bounded);
        admitted =
            less-Admitted c.budget (fetch_sub c.budget (length m.payload)) c.phase shrinks refl
              v.admitted;
        fixed = v.fixed;
      }

  step-IsAccounted : (c : Inbound) (m : Move) → Next c → Next (step c m)
  unfolding step pump take_next release
  step-IsAccounted c pumps v = pump_from-IsAccounted c c.phase v
  step-IsAccounted c takes v = take_from-IsAccounted c c.taken c.queue refl refl v
  step-IsAccounted c releases v = release_of-IsAccounted c c.taken refl v

  run-IsAccounted : (ms : List Move) (c : Inbound) → Next c → Next (run c ms)
  unfolding run
  run-IsAccounted [] c v = v
  run-IsAccounted (m ∷ ms) c v = run-IsAccounted ms _ (step-IsAccounted c m v)

  start-IsAccounted : (events : List DataChannelEvent) → Next (spawn_channel_pump limit events)
  unfolding spawn_channel_pump
  start-IsAccounted events = record {
    counted = refl;
    bounded = omega arith;
    admitted = tt;
    fixed = refl;
  }

  -- Under every interleaving of the pump's and the reader's atomic steps, the count of the budget is
  -- exact, never wraps and never exceeds the bound: it is the size of what is queued, of what the
  -- reader has taken and not released, and of what the pump has counted and not queued. The bound is
  -- below the largest word.
  pub run-buffered :
      (events : List DataChannelEvent) (ms : List Move)
      → let c = run (spawn_channel_pump limit events) ms in
        (c.budget.buffered ≡ total c.queue + held c.taken + in_hand c.phase)
        × (c.budget.buffered ≤ limit)
  run-buffered events ms =
      let v = run-IsAccounted ms _ (start-IsAccounted events) in (v.counted, v.bounded)
