-- ===== src/Guest/State/Accounting.antt =====
-- The invariant of the shared state of wasip3-impl/src/runtime.rs: the bytes that a channel counts
-- are those in its inbox, within the bound; a channel that overflowed, and every channel of a
-- connection that is gone, is closed.
use wasi_webrtc_datachannels.Base.{
  ℕ, ◌+◌, ◌≤◌, ◌<◌, ◌^◌, ◌≡◌, refl, subst, ap, ◌∙◌, String, Bool, true, false, some, List, [], ◌∷◌,
  ◌++◌, length, ltb, ◌==◌, nat_eq, ◌||◌, arith, All, Bool-cases, Option-cases, inl, inr,
}
use wasi_webrtc_datachannels.Guest.State.{
  usize_add, usize_sub, InboundMessage, Channel, new_channel, PeerEvent, connected, failed, closed,
  channel_open, channel_closed, message, Shared, find, write, close_channels, begin_close,
  apply_event, put_channel,
}

abbrev pub total : List InboundMessage → ℕ
total [] = 0
total (m ∷ ms) = length m.payload + total ms

pub total-append : (xs ys : List InboundMessage) → total (xs ++ ys) ≡ total xs + total ys
total-append [] ys = omega arith
total-append (x ∷ xs) ys = omega (arith, total-append xs ys)

pub record IsAccounted (limit : ℕ) (c : Channel) : Type 0 where
  pub counted : c.inbox_bytes ≡ total c.inbox
  pub bounded : c.inbox_bytes ≤ limit
  pub cut_off : c.overflowed ≡ true → c.closed ≡ true

-- A message whose size, added to a full inbox, stays in the 32-bit word.
abbrev pub Fits : ℕ → PeerEvent → Type 0
Fits limit (message id text payload) = limit + length payload < 2 ^ 32
Fits limit e = Unit

usize_add-exact : (a b : ℕ) → a + b < 2 ^ 32 → usize_add a b ≡ a + b
usize_add-exact a b h = omega (arith, h)

pub usize_sub-exact : (a b : ℕ) → a + b < 2 ^ 32 → usize_sub (b + a) b ≡ a
usize_sub-exact a b h = omega (arith, h)

abbrev pub IsClosed : Channel → Type 0
IsClosed c = c.closed ≡ true

module _ (P : Channel → Type 0) where
  pub write-All : (d : Channel) (cs : List Channel) → P d → All P cs → All P (write d cs)
  unfolding write
  write-All d [] h a = tt
  write-All d (c ∷ cs) h a = elim (Bool-cases (c.id == d.id)) [
    | inl e ↦ rw (e, All) (h, a.1)
    | inr e ↦ rw (e, All) (a.0, write-All d cs h (a.1))
  ]

  pub find-All : (id : ℕ) (cs : List Channel) (c : Channel) → find id cs ≡ some c → All P cs → P c
  unfolding find
  find-All id [] c e a = cc
  find-All id (d ∷ cs) c e a = elim (Bool-cases (d.id == id)) [
    | inl h ↦ let same : d ≡ c = ground arith in subst P same (a.0)
    | inr h ↦ find-All id cs c (ground arith) (a.1)
  ]

  pub append-All : (cs : List Channel) (d : Channel) → All P cs → P d → All P (cs ++ d ∷ [])
  append-All [] d a h = (h, tt)
  append-All (c ∷ cs) d a h = (a.0, append-All cs d (a.1) h)

  pub close_channels-All :
      (cs : List Channel)
      → ((c : Channel) → P c → P (record c { closed = true }))
      → All P cs
      → All P (close_channels cs)
  unfolding close_channels
  close_channels-All [] h a = tt
  close_channels-All (c ∷ cs) h a = (h c (a.0), close_channels-All cs h (a.1))

pub close_channels-IsClosed : (cs : List Channel) → All IsClosed (close_channels cs)
unfolding close_channels
close_channels-IsClosed [] = tt
close_channels-IsClosed (c ∷ cs) = (refl, close_channels-IsClosed cs)

pub find-id : (id : ℕ) (cs : List Channel) (c : Channel) → find id cs ≡ some c → c.id ≡ id
unfolding find
find-id id [] c e = cc
find-id id (d ∷ cs) c e = ground (arith, find-id id cs c)

pub record IsValid {Peer : Type 0} (limit : ℕ) (s : Shared Peer) : Type 0 where
  pub accounted : All (IsAccounted limit) s.channels
  pub gone : (s.closed || s.failed) ≡ true → All IsClosed s.channels
  pub requested : s.close_requested ≡ true → s.closed ≡ true

pub closed-IsAccounted :
    (limit : ℕ) (c : Channel) → IsAccounted limit c → IsAccounted limit (record c { closed = true })
closed-IsAccounted limit c h = record {
  counted = h.counted;
  bounded = h.bounded;
  cut_off = λ e. refl;
}

new-IsAccounted :
    (limit id : ℕ) (label : String) (b : Bool)
    → IsAccounted limit (record (new_channel id label) { closed = b })
new-IsAccounted limit id label b = record {
  counted = refl;
  bounded = omega arith;
  cut_off = λ e. cc;
}

module _ {Peer : Type 0} (close_data_channel : Peer → ℕ → Peer) (limit : ℕ) where
  -- A write of one channel that stays closed if it was.
  pub put_channel-IsValid :
      (s : Shared Peer) (c d : Channel)
      → find d.id s.channels ≡ some c
      → IsAccounted limit d
      → (c.closed ≡ true → d.closed ≡ true)
      → IsValid limit s
      → IsValid limit (put_channel s d)
  put_channel-IsValid s c d e h keep v = record {
    accounted = write-All (IsAccounted limit) d s.channels h v.accounted;
    gone = λ dead.
        let closed_all = v.gone dead in
        write-All IsClosed d s.channels (keep (find-All IsClosed d.id s.channels c e closed_all))
          closed_all;
    requested = v.requested;
  }

  pub peer-IsValid :
      (s : Shared Peer) (q : Peer) → IsValid limit s → IsValid limit (record s { peer = q })
  peer-IsValid s q v = record { accounted = v.accounted; gone = v.gone; requested = v.requested }

  pub begin_close-IsValid :
      (s : Shared Peer) (now : ℕ) → IsValid limit s → IsValid limit (begin_close s now)
  unfolding begin_close
  begin_close-IsValid s now v = elim (Bool-cases (s.closed || s.failed)) [
    | inl e ↦ rw (e, begin_close) v
    | inr e ↦
        rw (e, begin_close)
          (record {
            accounted =
                close_channels-All (IsAccounted limit) s.channels (closed-IsAccounted limit)
                  v.accounted;
            gone = λ dead. close_channels-IsClosed s.channels;
            requested = λ r. refl;
          })
  ]

  message-IsValid :
      (s : Shared Peer) (id : ℕ) (text : Bool) (payload : List ℕ) (c : Channel)
      → find id s.channels ≡ some c
      → limit + length payload < 2 ^ 32
      → IsValid limit s
      → IsValid limit (apply_event close_data_channel limit s (message id text payload))
  unfolding apply_event
  message-IsValid s id text payload c e word v =
      let a = find-All (IsAccounted limit) id s.channels c e v.accounted in
      let here : find c.id s.channels ≡ some c =
        ap (λ k. find k s.channels) (find-id id s.channels c e) ∙ e in
      rw (e, apply_event)
        (elim (Bool-cases (c.overflowed || c.closed)) [
          | inl off ↦ rw off v
          | inr on ↦ elim (Bool-cases (ltb limit (usize_add c.inbox_bytes (length payload)))) [
            | inl over ↦
                rw (on, over)
                  (peer-IsValid _ (close_data_channel s.peer id)
                    (put_channel-IsValid s c _ here (overflowing a) (λ d. refl) v))
            | inr fits ↦
                rw (on, fits) (put_channel-IsValid s c _ here (buffering a fits) (λ d. d) v)
          ]
        ])
    where
      exact :
          IsAccounted limit c
          → usize_add c.inbox_bytes (length payload) ≡ c.inbox_bytes + length payload
      exact a = usize_add-exact c.inbox_bytes (length payload) (omega (arith, a.bounded, word))

      overflowing :
          IsAccounted limit c → IsAccounted limit (record c { overflowed = true; closed = true })
      overflowing a = record { counted = a.counted; bounded = a.bounded; cut_off = λ h. refl }

      buffering :
          IsAccounted limit c
          → ltb limit (usize_add c.inbox_bytes (length payload)) ≡ false
          → IsAccounted limit (record c {
            inbox_bytes = usize_add c.inbox_bytes (length payload);
            inbox = c.inbox ++ record { text = text; payload = payload } ∷ [];
          })
      buffering a fits = record {
        counted = omega (
          arith,
          exact a,
          a.counted,
          total-append c.inbox (record { text = text; payload = payload } ∷ []),
        );
        bounded = ground arith;
        cut_off = a.cut_off;
      }

  -- Every event that the pump drains and whose message fits the word keeps the state valid.
  pub apply_event-IsValid :
      (s : Shared Peer) (e : PeerEvent)
      → Fits limit e
      → IsValid limit s
      → IsValid limit (apply_event close_data_channel limit s e)
  unfolding apply_event
  apply_event-IsValid s connected fits v = record {
    accounted = v.accounted;
    gone = v.gone;
    requested = v.requested;
  }
  apply_event-IsValid s failed fits v = record {
    accounted =
        close_channels-All (IsAccounted limit) s.channels (closed-IsAccounted limit) v.accounted;
    gone = λ dead. close_channels-IsClosed s.channels;
    requested = v.requested;
  }
  apply_event-IsValid s closed fits v = record {
    accounted =
        close_channels-All (IsAccounted limit) s.channels (closed-IsAccounted limit) v.accounted;
    gone = λ dead. close_channels-IsClosed s.channels;
    requested = λ r. refl;
  }
  apply_event-IsValid s (channel_open id label) fits v = elim (Option-cases (find id s.channels)) [
    | inr (c, e) ↦ rw (e, apply_event) v
    | inl e ↦
        rw (e, apply_event)
          (record {
            accounted =
                append-All (IsAccounted limit) s.channels _ v.accounted
                  (new-IsAccounted limit id label (s.closed || s.failed));
            gone = λ dead. append-All IsClosed s.channels _ (v.gone dead) dead;
            requested = v.requested;
          })
  ]
  apply_event-IsValid s (channel_closed id) fits v = elim (Option-cases (find id s.channels)) [
    | inl e ↦ rw (e, apply_event) v
    | inr (c, e) ↦
        let here : find c.id s.channels ≡ some c =
          ap (λ k. find k s.channels) (find-id id s.channels c e) ∙ e in
        rw (e, apply_event)
          (put_channel-IsValid s c _ here
            (closed-IsAccounted limit c
              (find-All (IsAccounted limit) id s.channels c e v.accounted))
            (λ d. refl) v)
  ]
  apply_event-IsValid s (message id text payload) fits v =
      elim (Option-cases (find id s.channels)) [
        | inl e ↦ rw (e, apply_event) v
        | inr (c, e) ↦ message-IsValid s id text payload c e fits v
      ]
