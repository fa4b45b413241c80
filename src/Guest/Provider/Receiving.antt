-- ===== src/Guest/Provider/Receiving.antt =====
-- `receive` of wasip3-impl/src/provider.rs: the backlog first, then why there is no more.
use wasi_webrtc_datachannels.Base.{
  ℕ, zero, suc, ◌≡◌, refl, ap, false, some, List, [], ◌∷◌, ◌++◌, length, map, nat_eq, if◌then◌else◌,
  arith,
}
use wasi_webrtc_datachannels.Guest.State.{
  usize_sub, InboundMessage, Channel, pop, Shared, find, write, channel_mut, put_channel,
}
use wasi_webrtc_datachannels.Guest.State.Accounting.{find-id}
use wasi_webrtc_datachannels.Guest.Provider.{
  Error, ok, err, Attempt, ready, wait, Message, to_message, receive, receive_buffer_overflow,
}

-- The channel that was written is found under its id.
pub find-write :
    (id : ℕ) (d c : Channel) (cs : List Channel)
    → d.id ≡ id
    → find id cs ≡ some c
    → find id (write d cs) ≡ some d
unfolding find write
find-write id d c [] e h = cc
find-write id d c (x ∷ cs) e h = ground (
  arith,
  nat_eq.eq_iff x.id d.id,
  nat_eq.eq_iff x.id id,
  nat_eq.eq_iff d.id id,
  find-write id d c cs e,
)

pop_cons :
    (c : Channel) (m : InboundMessage) (ms : List InboundMessage)
    → c.inbox ≡ m ∷ ms
    → pop c
      ≡ (some m, record c { inbox = ms; inbox_bytes = usize_sub c.inbox_bytes (length m.payload) })
unfolding pop
pop_cons c m ms e = rw e refl

-- What `receive` returns on a channel whose inbox is empty.
abbrev pub ending : Channel → Attempt Message
ending c =
    if c.overflowed
    then ready (err receive_buffer_overflow)
    else if c.closed
    then ready (err Error.closed)
    else wait

module _ {Peer : Type 0} where
  -- Calls of `receive` one after the other, with their results.
  pub receive_times : ℕ → Shared Peer → ℕ → List (Attempt Message) × Shared Peer
  receive_times zero s id = ([], s)
  receive_times (suc n) s id =
      let (r, s') = receive s id in let (rs, t) = receive_times n s' id in (r ∷ rs, t)

  receive_empty :
      (s : Shared Peer) (id : ℕ) (c : Channel)
      → channel_mut s id ≡ some c
      → c.stream_claimed ≡ false
      → c.inbox ≡ []
      → receive s id ≡ (ending c, s)
  unfolding receive pop
  receive_empty s id c e free none_left = ground arith

  receive_next :
      (s : Shared Peer) (id : ℕ) (c : Channel) (m : InboundMessage) (ms : List InboundMessage)
      → channel_mut s id ≡ some c
      → c.stream_claimed ≡ false
      → c.inbox ≡ m ∷ ms
      → receive s id ≡ (
        ready (ok (to_message m)),
        put_channel s
            (record c { inbox = ms; inbox_bytes = usize_sub c.inbox_bytes (length m.payload) }),
      )
  unfolding receive
  receive_next s id c m ms e free more = rw (e, receive) (rw (pop_cons c m ms more) (rw free refl))

  -- On a channel that no stream has claimed, calls of `receive` hand out the buffered messages, each
  -- once and in order, also after the channel has closed or overflowed; then the overflow is
  -- reported, or else the close, or the call waits.
  pub receive_backlog :
      (ms : List InboundMessage) (s : Shared Peer) (id : ℕ) (c : Channel)
      → channel_mut s id ≡ some c
      → c.stream_claimed ≡ false
      → c.inbox ≡ ms
      → (receive_times (suc (length ms)) s id).0
        ≡ map (λ m. ready (ok (to_message m))) ms ++ ending c ∷ []
  unfolding receive_times
  receive_backlog [] s id c e free h = rw (receive_empty s id c e free h)
  receive_backlog (m ∷ ms) s id c e free h =
      let c' = record c { inbox = ms; inbox_bytes = usize_sub c.inbox_bytes (length m.payload) } in
      let e' = find-write id c' c s.channels (find-id id s.channels c e) e in
      rw (receive_next s id c m ms e free h)
        (ap (λ rs. ready (ok (to_message m)) ∷ rs) (receive_backlog ms _ id c' e' free refl))
