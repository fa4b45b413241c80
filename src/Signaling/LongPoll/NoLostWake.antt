-- ===== src/Signaling/LongPoll/NoLostWake.antt =====
-- The blocking fetch of conformance/signaling/server/src/state.rs misses no wake, as long as its
-- room is not taken out between its first peek and the moment at which it registers for wakes.
use wasi_webrtc_datachannels.Base.{
  ℕ, ◌-◌, ◌≡◌, ◌≢◌, refl, List, [], ◌∷◌, ◌==◌, nat_eq, string_eq, leb, arith, Bool-cases, if_cases,
  inl, inr, subst,
}
use wasi_webrtc_datachannels.Signaling.Mailbox.{Fetch, blob, pending, peek}
use wasi_webrtc_datachannels.Signaling.Rooms.{Rooms, fetch_now, step}
use wasi_webrtc_datachannels.Signaling.LongPoll.{
  Notify, Phase, start, peeked, armed, parked, returned, Poll, settle, since, poll, Event, call,
  polls, advance, advance_all,
}
use wasi_webrtc_datachannels.Signaling.LongPoll.Watching.{Watched, step-Moves}
use wasi_webrtc_datachannels.Signaling.LongPoll.Guard.{
  IsPending, Any, Held, Guarded, Guarded-Moves, Held-fetch, Held-of, recheck-Guarded,
}
use wasi_webrtc_datachannels.Signaling.Rooms.View.{view}
use wasi_webrtc_datachannels.Signaling.Rooms.Stability.{fetch_now-view}

module _ (notify : Notify) (p : Poll) where
  -- What a fetch that stands at a phase relies on.
  abbrev pub Attentive : Phase → Rooms → Type 0
  Attentive start s = Unit
  Attentive (peeked n left) s = Held notify p n s
  Attentive (armed n mark left) s = Guarded notify p n mark Any s
  Attentive (parked n mark until) s = Guarded notify p n mark (IsPending p.seq) s
  Attentive (returned f) s = Unit

  -- A call of the store while the fetch stands between its peek and its registration does not take
  -- the room out.
  abbrev pub Undisturbed : Phase → Rooms → Event → Type 0
  Undisturbed (peeked n left) s (call o) = Held notify p n (step s o)
  Undisturbed _ s e = Unit

  settle_cases {ℓ} :
      (Q : Phase → Type ℓ) (f : Fetch) (next : Phase)
      → ((g : Fetch) → Q (returned g))
      → (f ≡ pending → Q next)
      → Q (settle f next)
  settle_cases Q (blob b) next done go = done (blob b)
  settle_cases Q Fetch.done next done go = done Fetch.done
  settle_cases Q pending next done go = go refl

  abbrev left_of : ℕ → ℕ
  left_of now = p.deadline - now

  poll-Attentive :
      (now : ℕ) (s : Rooms) (f : Phase)
      → Attentive f s
      → Attentive (poll notify p now s f).0 (poll notify p now s f).1
  unfolding poll
  poll-Attentive now s start h =
      let ((f, n), t) = fetch_now s now p.room p.role p.seq in
      settle_cases (λ g. Attentive g t) f _ (λ g. tt)
        (λ e.
          if_cases (λ g. Attentive g t) (left_of now == 0) (returned pending)
            (peeked n (left_of now)) (λ z. tt)
            (λ z. Held-of notify p n _ t (Held-fetch notify p s now)))
  poll-Attentive now s (peeked n left) h = record { within = omega arith; quiet = λ q. h }
  poll-Attentive now s (armed n mark left) h =
      let ((f, m), t) = fetch_now s now p.room p.role p.seq in
      settle_cases (λ g. Attentive g t) f _ (λ g. tt) (recheck-Guarded notify p now s n mark h)
  poll-Attentive now s (parked n mark until) h =
      let w = notify.woken n (since mark s.calls) in
      if_cases {A = Phase × Rooms} (λ g. Attentive g.0 g.1) w _ _ (λ e. tt)
        (λ e.
          if_cases {A = Phase × Rooms} (λ g. Attentive g.0 g.1) (leb until now)
            (returned pending, s) (parked n mark until, s) (λ z. tt) (λ z. h))
  poll-Attentive now s (returned g) h = tt

  advance-Attentive :
      (f : Phase) (s : Rooms) (e : Event)
      → Attentive f s
      → Undisturbed f s e
      → Attentive (advance notify p (f, s) e).0 (advance notify p (f, s) e).1
  unfolding advance
  advance-Attentive f s (polls now) h u = poll-Attentive now s f h
  advance-Attentive start s (call o) h u = tt
  advance-Attentive (peeked n left) s (call o) h u = u
  advance-Attentive (armed n mark left) s (call o) h u =
      Guarded-Moves notify p n mark Any s (step s o) (step-Moves p.room p.role n Any s o) h
  advance-Attentive (parked n mark until) s (call o) h u =
      Guarded-Moves notify p n mark (IsPending p.seq) s (step s o)
        (step-Moves p.room p.role n _ s o) h
  advance-Attentive (returned g) s (call o) h u = tt

  abbrev pub AllUndisturbed : Phase → Rooms → List Event → Type 0
  AllUndisturbed f s [] = Unit
  AllUndisturbed f s (e ∷ es) =
      Undisturbed f s e
      × AllUndisturbed (advance notify p (f, s) e).0 (advance notify p (f, s) e).1 es

  advance_all-Attentive :
      (f : Phase) (s : Rooms) (es : List Event)
      → Attentive f s
      → AllUndisturbed f s es
      → Attentive (advance_all notify p (f, s) es).0 (advance_all notify p (f, s) es).1
  unfolding advance_all
  advance_all-Attentive f s [] h u = h
  advance_all-Attentive f s (e ∷ es) h u =
      advance_all-Attentive (advance notify p (f, s) e).0 (advance notify p (f, s) e).1 es
        (advance-Attentive f s e h (u.0)) (u.1)

  Watched-pending :
      (s : Rooms) (now n : ℕ)
      → Watched p.room p.role n (IsPending p.seq) s
      → (fetch_now s now p.room p.role p.seq).0.0 ≡ pending
  unfolding view peek
  Watched-pending s now n w = rw (fetch_now-view, w.there) (w.holds)

  Attentive-resumes :
      (s : Rooms) (f : Phase) (n mark until now : ℕ)
      → f ≡ parked n mark until
      → Attentive f s
      → (fetch_now s now p.room p.role p.seq).0.0 ≢ pending
      → (poll notify p now s f).0 ≡ start
  unfolding poll
  Attentive-resumes s f n mark until now e h ready =
      let g : Guarded notify p n mark (IsPending p.seq) s = subst (λ f. Attentive f s) e h in
      rw e (elim (Bool-cases (notify.woken n (since mark s.calls))) [
        | inl w ↦ rw (w, poll)
        | inr w ↦ absurd (ready (Watched-pending s now n (g.quiet w)))
      ])

  start-returns :
      (s : Rooms) (now : ℕ)
      → (fetch_now s now p.room p.role p.seq).0.0 ≢ pending
      → (poll notify p now s start).0 ≡ returned (fetch_now s now p.room p.role p.seq).0.0
  unfolding poll
  start-returns s now ready = settled (fetch_now s now p.room p.role p.seq).0.0 _ ready
    where
      settled : (f : Fetch) (next : Phase) → f ≢ pending → settle f next ≡ returned f
      settled (blob b) next h = refl
      settled Fetch.done next h = refl
      settled pending next h = absurd (h refl)

  -- However polls of the fetch and calls of the store interleave, if none of the calls takes the
  -- room out between a peek and the registration that follows it, then a fetch that is parked while
  -- the answer is there goes back to its loop at the next poll, and returns the answer at the one
  -- after it.
  pub no_lost_wake :
      (s : Rooms) (es : List Event) (n mark until now : ℕ)
      → AllUndisturbed start s es
      → (advance_all notify p (start, s) es).0 ≡ parked n mark until
      → let (f, t) = advance_all notify p (start, s) es in
        (fetch_now t now p.room p.role p.seq).0.0 ≢ pending
        → ((poll notify p now t f).0 ≡ start)
          × ((poll notify p now t start).0 ≡ returned (fetch_now t now p.room p.role p.seq).0.0)
  no_lost_wake s es n mark until now u e ready =
      let (f, t) = advance_all notify p (start, s) es in
      (
        Attentive-resumes t f n mark until now e (advance_all-Attentive start s es tt u) ready,
        start-returns t now ready,
      )
