-- ===== src/Host/Pending/Settled.antt =====
-- No wake of `PendingOps::settled` is lost, wasmtime-impl/src/peer_connection.rs.
use wasi_webrtc_datachannels.Base.{
  ℕ, zero, suc, ◌+◌, ◌-◌, ◌^◌, ◌≤◌, ◌<◌, ◌≡◌, refl, sym, subst, ap, ◌∙◌, true, List, [], ◌∷◌,
  length, take, ◌==◌, nat_eq, if_cases, arith, inl, inr, ◌⊎◌, Bool-cases,
}
use wasi_webrtc_datachannels.Signaling.LongPoll.{Notify, since}
use wasi_webrtc_datachannels.Host.Pending.{
  PendingOps, default, begin, count_down, end_count, wake_waiters, end_notify, Waiter, entered,
  enabled, parked, returned, settled, Act, begins, counts_down, notifies, polls, act, run,
}

-- The count is that of the live tasks, with room for more of them.
record IsCounted (room : ℕ) (p : PendingOps) : Type 0 where
  exact : p.count ≡ p.live
  room_left : p.live + room < 2 ^ 64

begin-IsCounted : (room : ℕ) (p : PendingOps) → IsCounted (suc room) p → IsCounted room (begin p)
unfolding begin
begin-IsCounted room p v = record {
  exact = omega (arith, v.exact, v.room_left);
  room_left = omega (arith, v.room_left);
}

count_down-IsCounted :
    (room : ℕ) (p : PendingOps) (n : ℕ)
    → p.live ≡ n
    → IsCounted (suc room) p
    → IsCounted room (count_down p n)
unfolding count_down
count_down-IsCounted room p zero e v = record {
  exact = v.exact ∙ e;
  room_left = omega (arith, v.room_left);
}
count_down-IsCounted room p (suc n) e v = record {
  exact = omega (arith, v.exact, v.room_left, e);
  room_left = omega (arith, v.room_left, e);
}

wake_waiters-IsCounted :
    (room : ℕ) (p : PendingOps) (n : ℕ) → IsCounted (suc room) p → IsCounted room (wake_waiters p n)
unfolding wake_waiters
wake_waiters-IsCounted room p zero v = record {
  exact = v.exact;
  room_left = omega (arith, v.room_left);
}
wake_waiters-IsCounted room p (suc n) v = record {
  exact = v.exact;
  room_left = omega (arith, v.room_left);
}

module _ (notify : Notify) where
  -- A parked waiter is woken, or a task that will wake it has not done so yet.
  abbrev Attended : PendingOps → ℕ → Type 0
  Attended p mark =
      (mark ≤ length p.calls)
      × ((notify.woken 0 (since mark p.calls) ≡ true) ⊎ (1 ≤ p.live + p.ending))

  abbrev Attentive : PendingOps → Waiter → Type 0
  Attentive p entered = Unit
  Attentive p (enabled mark) = mark ≤ length p.calls
  Attentive p (parked mark) = Attended p mark
  Attentive p returned = Unit

  woken_by_call :
      (mark : ℕ) (calls : List ℕ)
      → mark ≤ length calls
      → notify.woken 0 (since mark (0 ∷ calls)) ≡ true
  woken_by_call mark calls h =
      let one_more : suc (length calls) - mark ≡ suc (length calls - mark) = omega (arith, h) in
      rw one_more (notify.wakes 0 (take (length calls - mark) calls))

  count_down-Attentive :
      (p : PendingOps) (w : Waiter) (n : ℕ)
      → p.live ≡ n
      → Attentive p w
      → Attentive (count_down p n) w
  unfolding count_down
  count_down-Attentive p entered zero e a = tt
  count_down-Attentive p entered (suc n) e a = tt
  count_down-Attentive p returned zero e a = tt
  count_down-Attentive p returned (suc n) e a = tt
  count_down-Attentive p (enabled mark) zero e a = a
  count_down-Attentive p (enabled mark) (suc n) e a = a
  count_down-Attentive p (parked mark) zero e (m, inl w) = (m, inl w)
  count_down-Attentive p (parked mark) zero e (m, inr h) = (m, inr (omega (arith, h, e)))
  count_down-Attentive p (parked mark) (suc n) e (m, h) = (m, inr (omega arith))

  wake_waiters-Attentive :
      (p : PendingOps) (w : Waiter) (n : ℕ)
      → p.ending ≡ n
      → Attentive p w
      → Attentive (wake_waiters p n) w
  unfolding wake_waiters
  wake_waiters-Attentive p entered zero e a = tt
  wake_waiters-Attentive p entered (suc n) e a = tt
  wake_waiters-Attentive p returned zero e a = tt
  wake_waiters-Attentive p returned (suc n) e a = tt
  wake_waiters-Attentive p (enabled mark) zero e a = a
  wake_waiters-Attentive p (enabled mark) (suc n) e a = omega (arith, a)
  wake_waiters-Attentive p (parked mark) zero e (m, inl w) = (m, inl w)
  wake_waiters-Attentive p (parked mark) zero e (m, inr h) = (m, inr (omega (arith, h, e)))
  wake_waiters-Attentive p (parked mark) (suc n) e (m, h) =
      (omega (arith, m), inl (woken_by_call mark p.calls m))

  begin-Attentive : (p : PendingOps) (w : Waiter) → Attentive p w → Attentive (begin p) w
  unfolding begin
  begin-Attentive p entered a = tt
  begin-Attentive p returned a = tt
  begin-Attentive p (enabled mark) a = a
  begin-Attentive p (parked mark) (m, inl w) = (m, inl w)
  begin-Attentive p (parked mark) (m, inr h) = (m, inr (omega arith))

  settled-Attentive :
      (p : PendingOps) (w : Waiter)
      → p.count ≡ p.live
      → Attentive p w
      → Attentive p (settled notify p w)
  unfolding settled
  settled-Attentive p entered e a = omega arith
  settled-Attentive p returned e a = tt
  settled-Attentive p (enabled mark) e a =
      if_cases (Attentive p) (p.count == 0) _ _ (λ z. tt)
        (λ z. (a, inr (ground (arith, e, nat_eq.eq_iff p.count 0))))
  settled-Attentive p (parked mark) e a =
      if_cases (Attentive p) (notify.woken 0 (since mark p.calls)) _ _ (λ z. tt) (λ z. a)

  abbrev Good : ℕ → PendingOps × Waiter → Type 0
  Good room s = IsCounted room s.0 × Attentive s.0 s.1

  act-Good :
      (room : ℕ) (s : PendingOps × Waiter) (a : Act)
      → Good (suc room) s
      → Good room (act notify s a)
  unfolding act end_count end_notify
  act-Good room (p, w) begins (c, a) = (begin-IsCounted room p c, begin-Attentive p w a)
  act-Good room (p, w) counts_down (c, a) =
      (count_down-IsCounted room p p.live refl c, count_down-Attentive p w p.live refl a)
  act-Good room (p, w) notifies (c, a) =
      (wake_waiters-IsCounted room p p.ending c, wake_waiters-Attentive p w p.ending refl a)
  act-Good room (p, w) polls (c, a) = (
    record { exact = c.exact; room_left = omega (arith, c.room_left) },
    settled-Attentive p w c.exact a,
  )

  run-Good :
      (acts : List Act) (s : PendingOps × Waiter)
      → Good (length acts) s
      → Good 0 (run notify s acts)
  unfolding run
  run-Good [] s g = g
  run-Good (a ∷ acts) s g = run-Good acts _ (act-Good (length acts) s a g)

  start-Good : (acts : List Act) → length acts < 2 ^ 64 → Good (length acts) (default, entered)
  unfolding default
  start-Good acts h = (record { exact = refl; room_left = omega (arith, h) }, tt)

  Attended-woken :
      (p : PendingOps) (mark : ℕ)
      → p.count ≡ p.live
      → p.count ≡ 0
      → p.ending ≡ 0
      → Attended p mark
      → notify.woken 0 (since mark p.calls) ≡ true
  Attended-woken p mark e z none_ending (m, inl w) = w
  Attended-woken p mark e z none_ending (m, inr h) = absurd (omega (arith, e, z, none_ending, h))

  three_polls :
      (p : PendingOps) (mark : ℕ)
      → p.count ≡ 0
      → notify.woken 0 (since mark p.calls) ≡ true
      → settled notify p (settled notify p (settled notify p (parked mark))) ≡ returned
  unfolding settled
  three_polls p mark z w = rw (w, settled) (rw (z, settled) refl)

  -- However tasks and a waiter interleave, a waiter that is parked when all tasks have ended and made
  -- their calls is woken: its next polls take it back to the loop and out of it. Fewer steps ran than
  -- the count's word holds.
  pub settled_wakes :
      (acts : List Act) (mark : ℕ)
      → length acts < 2 ^ 64
      → let (p, w) = run notify (default, entered) acts in
        w ≡ parked mark
        → p.count ≡ 0
        → p.ending ≡ 0
        → settled notify p (settled notify p (settled notify p w)) ≡ returned
  settled_wakes acts mark word at none_left done =
      let s = run notify (default, entered) acts in
      let (c, a) = run-Good acts (default, entered) (start-Good acts word) in
      let attended : Attended s.0 mark = subst (Attentive s.0) at a in
      rw at
        (three_polls s.0 mark none_left (Attended-woken s.0 mark c.exact none_left done attended))

  returns_at_zero :
      (p : PendingOps) (mark : ℕ) → settled notify p (enabled mark) ≡ returned → p.count ≡ 0
  unfolding settled
  returns_at_zero p mark h = elim (Bool-cases (p.count == 0)) [
    | inl e ↦ (nat_eq.eq_iff p.count 0).0 e
    | inr e ↦ let stays : parked mark ≡ returned = sym (rw e refl) ∙ h in cc
  ]

  -- Where a poll of the waiter returns, no task is between its begin and its end: what is produced
  -- next covers every channel created before. Fewer steps ran than the count's word holds.
  pub settled_none_live :
      (acts : List Act) (mark : ℕ)
      → length acts < 2 ^ 64
      → let (p, w) = run notify (default, entered) acts in
        w ≡ enabled mark → settled notify p w ≡ returned → p.live ≡ 0
  settled_none_live acts mark word at h =
      let s = run notify (default, entered) acts in
      let (c, a) = run-Good acts (default, entered) (start-Good acts word) in
      sym c.exact ∙ returns_at_zero s.0 mark (ap (settled notify s.0) (sym at) ∙ h)
