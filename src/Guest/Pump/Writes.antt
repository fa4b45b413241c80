-- ===== src/Guest/Pump/Writes.antt =====
-- The exported methods of wasip3-impl/src/provider.rs that take messages: what they leave of the
-- state.
use wasi_webrtc_datachannels.Base.{
  ℕ, ◌+◌, ◌<◌, ◌^◌, ◌≡◌, refl, ap, ◌∙◌, true, Option, none, some, List, [], ◌∷◌, length, nat_eq,
  arith, if_cases,
}
use wasi_webrtc_datachannels.Guest.State.{
  usize_sub, InboundMessage, Channel, pop, pop_front, Shared, find, put_channel, channel_mut,
  notify,
}
use wasi_webrtc_datachannels.Guest.State.Accounting.{usize_sub-exact, IsAccounted, total, find-id}
use wasi_webrtc_datachannels.Guest.Provider.{
  channel_state, receive, receive_via_stream, pump_receive, take_message, next_streamed,
  receive_from, stream_from, claim, already_claimed, is_closed_state, dead,
}

-- One channel rewritten in place, which stays closed and within its bound.
pub record IsRewrite (c d : Channel) : Type 0 where
  pub same : d.id ≡ c.id
  pub keeps : c.closed ≡ true → d.closed ≡ true
  pub accounts : (limit : ℕ) → limit < 2 ^ 32 → IsAccounted limit c → IsAccounted limit d

module _ {Peer : Type 0} where
  -- The states that such a rewrite leads to, or no change at all.
  pub data Wrote (s : Shared Peer) : Shared Peer → Type 0 where
    unchanged : Wrote s s
    wrote :
        (c d : Channel) → find c.id s.channels ≡ some c → IsRewrite c d → Wrote s (put_channel s d)
    notified :
        (c d : Channel)
        → find c.id s.channels ≡ some c
        → IsRewrite c d
        → Wrote s (notify (put_channel s d))

claimed-IsRewrite : (c : Channel) → IsRewrite c (record c { stream_claimed = true })
claimed-IsRewrite c = record {
  same = refl;
  keeps = λ h. h;
  accounts =
      λ limit word a. record { counted = a.counted; bounded = a.bounded; cut_off = a.cut_off };
}

same-IsRewrite : (c : Channel) → IsRewrite c c
same-IsRewrite c = record { same = refl; keeps = λ h. h; accounts = λ limit word a. a }

pop_front-IsRewrite :
    (c : Channel) (ms : List InboundMessage) → c.inbox ≡ ms → IsRewrite c (pop_front c ms).1
unfolding pop_front
pop_front-IsRewrite c [] e = same-IsRewrite c
pop_front-IsRewrite c (m ∷ ms) e = record {
  same = refl;
  keeps = λ h. h;
  accounts = λ limit word a.
      let counted : c.inbox_bytes ≡ length m.payload + total ms = a.counted ∙ ap total e in
      let fits : total ms + length m.payload < 2 ^ 32 = omega (arith, counted, a.bounded, word) in
      let exact =
        ap (λ n. usize_sub n (length m.payload)) counted
        ∙ usize_sub-exact (total ms) (length m.payload) fits in
      record {
        counted = exact;
        bounded = omega (arith, exact, counted, a.bounded);
        cut_off = a.cut_off;
      };
}

pop-IsRewrite : (c : Channel) → IsRewrite c (pop c).1
unfolding pop
pop-IsRewrite c = pop_front-IsRewrite c c.inbox refl

module _ {Peer : Type 0} where
  abbrev WroteBy : {A : Type 0} → Shared Peer → A × Shared Peer → Type 0
  WroteBy s r = Wrote s r.1

  take_message-Wrote :
      (s : Shared Peer) (c : Channel) (p : Option InboundMessage × Channel)
      → find c.id s.channels ≡ some c
      → IsRewrite c p.1
      → Wrote s (take_message s c p).1
  unfolding take_message
  take_message-Wrote s c (some m, d) e h = wrote c d e h
  take_message-Wrote s c (none, d) e h =
      if_cases (WroteBy s) c.overflowed _ _ (λ o. unchanged)
        (λ o. if_cases (WroteBy s) c.closed _ _ (λ k. unchanged) (λ k. unchanged))

  next_streamed-Wrote :
      (s : Shared Peer) (c : Channel) (p : Option InboundMessage × Channel)
      → find c.id s.channels ≡ some c
      → IsRewrite c p.1
      → Wrote s (next_streamed s c p).1
  unfolding next_streamed
  next_streamed-Wrote s c (some m, d) e h = wrote c d e h
  next_streamed-Wrote s c (none, d) e h =
      if_cases (WroteBy s) c.closed _ _ (λ k. unchanged) (λ k. unchanged)

  -- The channel that a lookup returns.
  abbrev Found : Shared Peer → Option Channel → Type 0
  Found s o = (c : Channel) → o ≡ some c → find c.id s.channels ≡ some c

  channel_mut-Found : (s : Shared Peer) (id : ℕ) → Found s (channel_mut s id)
  channel_mut-Found s id c e = ap (λ k. find k s.channels) (find-id id s.channels c e) ∙ e

  receive_from-Wrote :
      (s : Shared Peer) (o : Option Channel) → Found s o → Wrote s (receive_from s o).1
  unfolding receive_from
  receive_from-Wrote s none f = if_cases (WroteBy s) (dead s) _ _ (λ k. unchanged) (λ k. unchanged)
  receive_from-Wrote s (some c) f =
      if_cases (WroteBy s) c.stream_claimed _ _ (λ k. unchanged)
        (λ k. take_message-Wrote s c (pop c) (f c refl) (pop-IsRewrite c))

  pub receive-Wrote : (s : Shared Peer) (id : ℕ) → Wrote s (receive s id).1
  unfolding receive
  receive-Wrote s id = receive_from-Wrote s (channel_mut s id) (channel_mut-Found s id)

  stream_from-Wrote :
      (s : Shared Peer) (o : Option Channel) → Found s o → Wrote s (stream_from s o).1
  unfolding stream_from
  stream_from-Wrote s none f = if_cases (WroteBy s) (dead s) _ _ (λ k. unchanged) (λ k. unchanged)
  stream_from-Wrote s (some c) f = next_streamed-Wrote s c (pop c) (f c refl) (pop-IsRewrite c)

  pub pump_receive-Wrote : (s : Shared Peer) (id : ℕ) → Wrote s (pump_receive s id).1
  unfolding pump_receive
  pump_receive-Wrote s id = stream_from-Wrote s (channel_mut s id) (channel_mut-Found s id)

  claim-Wrote : (s : Shared Peer) (o : Option Channel) → Found s o → Wrote s (claim s o)
  unfolding claim
  claim-Wrote s none f = unchanged
  claim-Wrote s (some c) f = notified c _ (f c refl) (claimed-IsRewrite c)

  pub receive_via_stream-Wrote : (s : Shared Peer) (id : ℕ) → Wrote s (receive_via_stream s id).1
  unfolding receive_via_stream
  receive_via_stream-Wrote s id =
      if_cases (WroteBy s) (already_claimed (channel_mut s id)) _ _ (λ k. unchanged)
        (λ k.
          if_cases (WroteBy s) (is_closed_state (channel_state s id)) _ _ (λ q. unchanged)
            (λ q. claim-Wrote s (channel_mut s id) (channel_mut-Found s id)))
