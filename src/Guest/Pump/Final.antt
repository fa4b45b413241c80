-- ===== src/Guest/Pump/Final.antt =====
-- A channel of wasip3-impl/src/provider.rs that is closed stays closed.
use wasi_webrtc_datachannels.Base.{
  ℕ, ◌<◌, ◌^◌, ◌≡◌, refl, ap, ◌∙◌, Bool, true, false, some, List, [], ◌∷◌, ◌++◌, ltb, length, ◌==◌,
  nat_eq, if◌then◌else◌, ◌||◌, arith, All, Bool-cases, Option-cases, inl, inr, ◌⊎◌, if_cases,
}
use wasi_webrtc_datachannels.Guest.State.{
  usize_add, Channel, PeerEvent, connected, failed, closed, channel_open, channel_closed, message,
  Shared, find, write, close_channels, begin_close, apply_event, put_channel, channel_mut, notify,
}
use wasi_webrtc_datachannels.Guest.State.Accounting.{Fits, IsValid, find-All, find-id, IsClosed}
use wasi_webrtc_datachannels.Guest.Provider.{ChannelState, channel_state, dead, opening, open_}
use wasi_webrtc_datachannels.Guest.Pump.{Core, new_shared}
use wasi_webrtc_datachannels.Guest.Pump.Steps.{Act, run}
use wasi_webrtc_datachannels.Guest.Pump.Kept.{IsKept, run-kept}
use wasi_webrtc_datachannels.Guest.Pump.Closing.{IsValid-IsKept, new_shared-IsValid}

-- Whether the channel is tracked and closed.
abbrev closed_at : ℕ → List Channel → Bool
closed_at id [] = false
closed_at id (c ∷ cs) = if c.id == id then c.closed else closed_at id cs

closed_at-append :
    (id : ℕ) (cs ds : List Channel) → closed_at id cs ≡ true → closed_at id (cs ++ ds) ≡ true
closed_at-append id [] ds h = cc
closed_at-append id (c ∷ cs) ds h = ground (arith, closed_at-append id cs ds)

closed_at-close_channels :
    (id : ℕ) (cs : List Channel) → closed_at id cs ≡ true → closed_at id (close_channels cs) ≡ true
unfolding close_channels
closed_at-close_channels id [] h = h
closed_at-close_channels id (c ∷ cs) h = ground (arith, closed_at-close_channels id cs)

closed_at-write :
    (id : ℕ) (c d : Channel) (cs : List Channel)
    → find d.id cs ≡ some c
    → (c.closed ≡ true → d.closed ≡ true)
    → closed_at id cs ≡ true
    → closed_at id (write d cs) ≡ true
unfolding find write
closed_at-write id c d [] e k h = cc
closed_at-write id c d (x ∷ cs) e k h = ground (
  arith,
  nat_eq.eq_iff x.id d.id,
  nat_eq.eq_iff x.id id,
  nat_eq.eq_iff d.id id,
  closed_at-write id c d cs,
)

closed_at-find :
    (id : ℕ) (cs : List Channel)
    → closed_at id cs ≡ true
    → (c : Channel) × (find id cs ≡ some c) × (c.closed ≡ true)
unfolding find
closed_at-find id [] h = cc
closed_at-find id (c ∷ cs) h = elim (Bool-cases (c.id == id)) [
  | inl e ↦ (c, rw e refl, ground arith)
  | inr e ↦ let (d, f, k) = closed_at-find id cs (ground arith) in (d, rw e f, k)
]

find-closed_at :
    (id : ℕ) (cs : List Channel) (c : Channel)
    → find id cs ≡ some c
    → c.closed ≡ true
    → closed_at id cs ≡ true
unfolding find
find-closed_at id [] c e k = cc
find-closed_at id (x ∷ cs) c e k = ground (arith, find-closed_at id cs c)

found_here :
    {Peer : Type 0} (s : Shared Peer) (i : ℕ) (c : Channel)
    → channel_mut s i ≡ some c
    → find c.id s.channels ≡ some c
found_here s i c e = ap (λ k. find k s.channels) (find-id i s.channels c e) ∙ e

module _ {Peer : Type 0} (core : Core Peer) (limit : ℕ) (id : ℕ) where
  abbrev Gone : Shared Peer → Type 0
  Gone s = (dead s ≡ true) ⊎ (closed_at id s.channels ≡ true)

  put_channel-Gone :
      (s : Shared Peer) (c d : Channel)
      → find d.id s.channels ≡ some c
      → (c.closed ≡ true → d.closed ≡ true)
      → Gone s
      → Gone (put_channel s d)
  put_channel-Gone s c d e k (inl h) = inl h
  put_channel-Gone s c d e k (inr h) = inr (closed_at-write id c d s.channels e k h)

  event-Gone :
      (s : Shared Peer) (e : PeerEvent)
      → Gone s
      → Gone (apply_event core.close_data_channel limit s e)
  unfolding apply_event
  event-Gone s connected h = h
  event-Gone s failed h = inl (ground arith)
  event-Gone s closed h = inl refl
  event-Gone s (channel_open i label) h = elim (Option-cases (find i s.channels)) [
    | inr (c, e) ↦ rw (e, apply_event) h
    | inl e ↦
        rw (e, apply_event)
          (elim h [ inl g ↦ inl g | inr g ↦ inr (closed_at-append id s.channels _ g) ])
  ]
  event-Gone s (channel_closed i) h = elim (Option-cases (find i s.channels)) [
    | inl e ↦ rw (e, apply_event) h
    | inr (c, e) ↦ rw (e, apply_event) (put_channel-Gone s c _ (found_here s i c e) (λ k. refl) h)
  ]
  event-Gone s (message i text payload) h = elim (Option-cases (find i s.channels)) [
    | inl e ↦ rw (e, apply_event) h
    | inr (c, e) ↦
        rw (e, apply_event)
          (if_cases Gone (c.overflowed || c.closed) _ _ (λ off. h)
            (λ on.
              if_cases Gone (ltb limit (usize_add c.inbox_bytes (length payload))) _ _
                (λ o. put_channel-Gone s c _ (found_here s i c e) (λ k. refl) h)
                (λ o. put_channel-Gone s c _ (found_here s i c e) (λ k. k) h)))
  ]

  begin_close-Gone : (s : Shared Peer) (now : ℕ) → Gone s → Gone (begin_close s now)
  unfolding begin_close notify
  begin_close-Gone s now h = if_cases Gone (dead s) _ _ (λ d. h) (λ a. inl refl)

  Gone-IsKept : IsKept core limit (Fits limit) Gone
  unfolding notify
  Gone-IsKept = record {
    by_peer = λ s p h. h;
    by_notify = λ s h. h;
    by_request = λ s h. h;
    by_event = λ s e fits h. event-Gone s e h;
    by_write =
        λ s c d e r h. put_channel-Gone s c d (ap (λ i. find i s.channels) r.same ∙ e) r.keeps h;
    by_close = λ s now h. begin_close-Gone s now h;
    by_finish = λ s h. inl refl;
  }

  Gone-closed :
      (s : Shared Peer) → IsValid limit s → Gone s → channel_state s id ≡ ChannelState.closed
  unfolding channel_state
  Gone-closed s v (inr h) =
      let (c, e, k) = closed_at-find id s.channels h in rw (e, channel_state) (rw k refl)
  Gone-closed s v (inl d) = elim (Option-cases (channel_mut s id)) [
    | inl e ↦ rw (e, channel_state) (rw d refl)
    | inr (c, e) ↦
        let k = find-All IsClosed id s.channels c e (v.gone d) in rw (e, channel_state) (rw k refl)
  ]

  closed-Gone : (s : Shared Peer) → channel_state s id ≡ ChannelState.closed → Gone s
  unfolding channel_state
  closed-Gone s = elim (Option-cases (channel_mut s id)) [
    | inl e ↦ rw (e, channel_state) (λ h. inl (absent-dead (dead s) h))
    | inr (c, e) ↦
        rw (e, channel_state) (λ h. inr (find-closed_at id s.channels c e (closed-flag c.closed h)))
  ]
    where
      absent-dead :
          (b : Bool) → (if b then ChannelState.closed else opening) ≡ ChannelState.closed → b ≡ true
      absent-dead true h = refl
      absent-dead false h = cc

      closed-flag :
          (b : Bool) → (if b then ChannelState.closed else open_) ≡ ChannelState.closed → b ≡ true
      closed-flag true h = refl
      closed-flag false h = cc

  -- A channel that has once been seen closed, on a connection that has run from its start, is seen
  -- closed ever after, whatever events come and however the pump and the methods interleave: it is
  -- never open again, nor opening. Bound and messages are of sizes that fit the word.
  pub closed_is_final :
      (word : limit < 2 ^ 32) (fits : (p : Peer) → All (Fits limit) (core.drain_events p).0)
      (p : Peer) (before after : List Act)
      → let s = run core limit (new_shared p) before in
        channel_state s id ≡ ChannelState.closed
        → channel_state (run core limit s after) id ≡ ChannelState.closed
  closed_is_final word fits p before after h =
      let valid = IsValid-IsKept core limit word in
      let v =
        run-kept core limit (Fits limit) fits (IsValid limit) valid before _
          (new_shared-IsValid core limit word p) in
      let v' = run-kept core limit (Fits limit) fits (IsValid limit) valid after _ v in
      Gone-closed _ v'
        (run-kept core limit (Fits limit) fits Gone Gone-IsKept after _ (closed-Gone _ h))
