-- ===== src/Guest/Pump/Closing.antt =====
-- The memory bound, the finality of a close and the end of the pump of wasip3-impl/src/runtime.rs,
-- over every interleaving with the exported methods.
use wasi_webrtc_datachannels.Base.{
  ℕ, ◌+◌, ◌≤◌, ◌<◌, ◌^◌, ◌≡◌, refl, ap, ◌∙◌, true, false, some, List, [], ◌∷◌, ltb, length, nat_eq,
  ◌||◌, arith, All, Option-cases, inl, inr, if_cases,
}
use wasi_webrtc_datachannels.Guest.State.{
  usize_add, Channel, PeerEvent, connected, failed, closed, channel_open, channel_closed, message,
  Shared, find, begin_close, apply_event, channel_mut, notify, close_drain,
}
use wasi_webrtc_datachannels.Guest.State.Accounting.{
  Fits, IsValid, IsAccounted, total, find-All, put_channel-IsValid, begin_close-IsValid,
  apply_event-IsValid, close_channels-All, close_channels-IsClosed, closed-IsAccounted,
  peer-IsValid,
}
use wasi_webrtc_datachannels.Guest.Provider.{dead}
use wasi_webrtc_datachannels.Guest.Pump.{Core, new_shared, turn, is_done}
use wasi_webrtc_datachannels.Guest.Pump.Steps.{Act, run}
use wasi_webrtc_datachannels.Guest.Pump.Kept.{IsKept, run-kept, turn-done}

module _ {Peer : Type 0} (core : Core Peer) (limit : ℕ) (word : limit < 2 ^ 32) where
  pub IsValid-IsKept : IsKept core limit (Fits limit) (IsValid limit)
  unfolding notify
  IsValid-IsKept = record {
    by_peer = λ s p v. peer-IsValid core.close_data_channel limit s p v;
    by_notify = λ s v. record { accounted = v.accounted; gone = v.gone; requested = v.requested };
    by_request = λ s v. record { accounted = v.accounted; gone = v.gone; requested = λ e. cc };
    by_event = λ s e fits v. apply_event-IsValid core.close_data_channel limit s e fits v;
    by_write = λ s c d e r v.
        put_channel-IsValid core.close_data_channel limit s c d
          (ap (λ i. find i s.channels) r.same ∙ e)
          (r.accounts limit word (find-All (IsAccounted limit) c.id s.channels c e v.accounted))
          r.keeps v;
    by_close = λ s now v. begin_close-IsValid core.close_data_channel limit s now v;
    by_finish = λ s v. record {
      accounted =
          close_channels-All (IsAccounted limit) s.channels (closed-IsAccounted limit) v.accounted;
      gone = λ d. close_channels-IsClosed s.channels;
      requested = λ r. refl;
    };
  }

  pub new_shared-IsValid : (p : Peer) → IsValid limit (new_shared p)
  new_shared-IsValid p = record { accounted = tt; gone = λ d. tt; requested = λ r. cc }

  -- Whatever the remote peer sends and however the pump and the exported methods interleave, no
  -- channel of a connection ever holds more than the configured number of payload bytes. The bound
  -- is a 32-bit number, and stays one with the size of any single message added.
  pub run-inbox_bound :
      (fits : (p : Peer) → All (Fits limit) (core.drain_events p).0) (p : Peer) (acts : List Act)
      (id : ℕ) (c : Channel)
      → channel_mut (run core limit (new_shared p) acts) id ≡ some c
      → total c.inbox ≤ limit
  run-inbox_bound fits p acts id c e =
      let v =
        run-kept core limit (Fits limit) fits (IsValid limit) IsValid-IsKept acts _
          (new_shared-IsValid p) in
      let a = find-All (IsAccounted limit) id _ c e v.accounted in
      omega (arith, a.counted, a.bounded)

module _ {Peer : Type 0} (core : Core Peer) (limit : ℕ) where
  -- The connection is closed, and the pump has a time at which it gives up on the close.
  abbrev Draining : ℕ → Shared Peer → Type 0
  Draining d s = (s.closed ≡ true) × (s.drain_deadline ≡ some d)

  event-Draining :
      (d : ℕ) (s : Shared Peer) (e : PeerEvent)
      → Draining d s
      → Draining d (apply_event core.close_data_channel limit s e)
  unfolding apply_event
  event-Draining d s connected h = h
  event-Draining d s failed h = h
  event-Draining d s closed h = (refl, h.1)
  event-Draining d s (channel_open id label) h = elim (Option-cases (find id s.channels)) [
    | inl e ↦ rw (e, apply_event) h
    | inr (c, e) ↦ rw (e, apply_event) h
  ]
  event-Draining d s (channel_closed id) h = elim (Option-cases (find id s.channels)) [
    | inl e ↦ rw (e, apply_event) h
    | inr (c, e) ↦ rw (e, apply_event) h
  ]
  event-Draining d s (message id text payload) h = elim (Option-cases (find id s.channels)) [
    | inl e ↦ rw (e, apply_event) h
    | inr (c, e) ↦
        rw (e, apply_event)
          (if_cases (Draining d) (c.overflowed || c.closed) _ _ (λ off. h)
            (λ on.
              if_cases (Draining d) (ltb limit (usize_add c.inbox_bytes (length payload))) _ _
                (λ o. h) (λ o. h)))
  ]

  Draining-IsKept : (d : ℕ) → IsKept core limit (λ e. Unit) (Draining d)
  unfolding notify begin_close
  Draining-IsKept d = record {
    by_peer = λ s p h. h;
    by_notify = λ s h. h;
    by_request = λ s h. h;
    by_event = λ s e o h. event-Draining d s e h;
    by_write = λ s c x e r h. h;
    by_close = λ s now h. rw (h.0) (refl, h.1);
    by_finish = λ s h. (refl, h.1);
  }

  done_at : (d now : ℕ) (s : Shared Peer) → Draining d s → d ≤ now → is_done s now ≡ true
  unfolding is_done
  done_at d now s h le = rw (h.0, h.1) (ground arith)

  any_events : (es : List PeerEvent) → All (λ e. Unit {0}) es
  any_events [] = tt
  any_events (e ∷ es) = (tt, any_events es)

  begin_close-Draining :
      (s : Shared Peer) (t : ℕ) → dead s ≡ false → Draining (t + close_drain) (begin_close s t)
  unfolding begin_close notify
  begin_close-Draining s t alive = rw alive (refl, refl)

  -- Once `close` has been called on a live connection, every later pass of the pump is the last
  -- from the moment that the drain window has lapsed, whatever ran in between.
  pub turn-is_done :
      (s : Shared Peer) (t now : ℕ) (acts : List Act)
      → dead s ≡ false
      → t + close_drain ≤ now
      → (turn core limit (run core limit (begin_close s t) acts) now).0 ≡ true
  turn-is_done s t now acts alive late =
      let k = Draining-IsKept (t + close_drain) in
      let after =
        run-kept core limit (λ e. Unit) (λ p. any_events (core.drain_events p).0)
          (Draining (t + close_drain)) k acts _ (begin_close-Draining s t alive) in
      turn-done core limit (λ e. Unit) (λ p. any_events (core.drain_events p).0)
        (Draining (t + close_drain)) k _ now (λ u h. done_at (t + close_drain) now u h late) after
