-- ===== src/Guest/Pump/Kept.antt =====
-- What every step of the pump of wasip3-impl/src/runtime.rs and of the exported methods keeps holds
-- after every run.
use wasi_webrtc_datachannels.Base.{ℕ, ◌≡◌, true, false, some, List, [], ◌∷◌, nat_eq, All, if_cases}
use wasi_webrtc_datachannels.Guest.State.{
  Channel, PeerEvent, Shared, find, close_channels, begin_close, apply_event, apply_events,
  put_channel, notify,
}
use wasi_webrtc_datachannels.Guest.Provider.{
  Result, ok, err, Message, DataChannel, send, sent, send_in, ChannelState, channel_state, open_,
  opening,
}
use wasi_webrtc_datachannels.Guest.Pump.{
  Core, turn, close_core, fold_events, notify_events, is_done, flush_one, finish,
}
use wasi_webrtc_datachannels.Guest.Pump.Steps.{
  Act, pump_turn, flushing, finishing, input, timeout, closing, sending, receiving, streaming,
  feeding, step, run,
}
use wasi_webrtc_datachannels.Guest.Pump.Writes.{
  IsRewrite, Wrote, unchanged, wrote, notified, receive-Wrote, receive_via_stream-Wrote,
  pump_receive-Wrote,
}

-- A `send` changes the core only.
module _ {Peer : Type 0} (send_to : Peer → ℕ → Message → Result (Unit {0}) × Peer) where
  pub sent-peer :
      (P : Shared Peer → Type 0) (dc : DataChannel) (s : Shared Peer) (r : Result (Unit {0}) × Peer)
      → ((p : Peer) → P (record s { peer = p }))
      → P (sent send_to dc s r).1
  unfolding sent
  sent-peer P dc s (ok u, p) h = h p
  sent-peer P dc s (err e, p) h = h p

  send_in-peer :
      (P : Shared Peer → Type 0) (dc : DataChannel) (st : ChannelState) (s : Shared Peer)
      (m : Message)
      → ((p : Peer) → P (record s { peer = p }))
      → P (send_in send_to st dc s m).1
  unfolding send_in
  send_in-peer P dc open_ s m h = sent-peer P dc s (send_to s.peer dc.id m) h
  send_in-peer P dc ChannelState.closed s m h = h s.peer
  send_in-peer P dc opening s m h = h s.peer

  pub send-peer :
      (P : Shared Peer → Type 0) (dc : DataChannel) (s : Shared Peer) (m : Message)
      → ((p : Peer) → P (record s { peer = p }))
      → P (send send_to dc s m).1
  unfolding send
  send-peer P dc s m h = send_in-peer P dc (channel_state s dc.id) s m h

-- A property of states that every part of a step keeps, the events being those that are `Ok`.
pub record IsKept {Peer : Type 0} (core : Core Peer) (limit : ℕ) (Ok : PeerEvent → Type 0)
    (P : Shared Peer → Type 0) : Type 0 where
  pub by_peer : (s : Shared Peer) (p : Peer) → P s → P (record s { peer = p })
  pub by_notify : (s : Shared Peer) → P s → P (notify s)
  pub by_request : (s : Shared Peer) → P s → P (record s { close_requested = false })
  pub by_event :
      (s : Shared Peer) (e : PeerEvent)
      → Ok e
      → P s
      → P (apply_event core.close_data_channel limit s e)
  pub by_write :
      (s : Shared Peer) (c d : Channel)
      → find c.id s.channels ≡ some c
      → IsRewrite c d
      → P s
      → P (put_channel s d)
  pub by_close : (s : Shared Peer) (now : ℕ) → P s → P (begin_close s now)
  pub by_finish :
      (s : Shared Peer) → P s → P (record s { closed = true; channels = close_channels s.channels })

module _ {Peer : Type 0} (core : Core Peer) (limit : ℕ) (Ok : PeerEvent → Type 0)
    (all_ok : (p : Peer) → All Ok (core.drain_events p).0) (P : Shared Peer → Type 0)
    (k : IsKept core limit Ok P) where
  Wrote-kept : (s t : Shared Peer) → Wrote s t → P s → P t
  Wrote-kept s _ unchanged h = h
  Wrote-kept s _ (wrote c d e r) h = k.by_write s c d e r h
  Wrote-kept s _ (notified c d e r) h = k.by_notify _ (k.by_write s c d e r h)

  events-kept :
      (es : List PeerEvent) (s : Shared Peer)
      → All Ok es
      → P s
      → P (apply_events core.close_data_channel limit s es)
  unfolding apply_events
  events-kept [] s o h = h
  events-kept (e ∷ es) s o h = events-kept es _ o.1 (k.by_event s e o.0 h)

  notify_events-kept : (es : List PeerEvent) (s : Shared Peer) → P s → P (notify_events es s)
  notify_events-kept [] s h = h
  notify_events-kept (e ∷ es) s h = k.by_notify s h

  close_core-kept : (s : Shared Peer) → P s → P (close_core core limit s)
  unfolding close_core
  close_core-kept s h =
      if_cases P s.close_requested _ _ (λ e. k.by_peer _ (core.close s.peer) (k.by_request s h))
        (λ e. h)

  fold_events-kept :
      (s : Shared Peer) (r : List PeerEvent × Peer) (now : ℕ)
      → All Ok r.0
      → P s
      → P (fold_events core limit s r now).1
  unfolding fold_events
  fold_events-kept s (es, p) now o h =
      notify_events-kept es _ (events-kept es _ o (k.by_peer s p h))

  pub turn-kept : (s : Shared Peer) (now : ℕ) → P s → P (turn core limit s now).1
  unfolding turn
  turn-kept s now h =
      fold_events-kept _ (core.drain_events (close_core core limit s).peer) now (all_ok _)
        (close_core-kept s h)

  fold_events-done :
      (s : Shared Peer) (r : List PeerEvent × Peer) (now : ℕ)
      → All Ok r.0
      → ((t : Shared Peer) → P t → is_done t now ≡ true)
      → P s
      → (fold_events core limit s r now).0 ≡ true
  unfolding fold_events
  fold_events-done s (es, p) now o q h = q _ (events-kept es _ o (k.by_peer s p h))

  -- Where the property says that the pump is done, the pass ends it.
  pub turn-done :
      (s : Shared Peer) (now : ℕ)
      → ((t : Shared Peer) → P t → is_done t now ≡ true)
      → P s
      → (turn core limit s now).0 ≡ true
  unfolding turn
  turn-done s now q h =
      fold_events-done _ (core.drain_events (close_core core limit s).peer) now (all_ok _) q
        (close_core-kept s h)

  pub step-kept : (s : Shared Peer) (a : Act) → P s → P (step core limit s a)
  unfolding step flush_one finish
  step-kept s (pump_turn now) h = turn-kept s now h
  step-kept s flushing h = k.by_peer s _ h
  step-kept s finishing h = k.by_notify _ (k.by_finish s h)
  step-kept s (input datagram now) h = k.by_peer s _ h
  step-kept s (timeout now) h = k.by_peer s _ h
  step-kept s (closing now) h = k.by_close s now h
  step-kept s (sending dc m) h = send-peer core.send P dc s m (λ p. k.by_peer s p h)
  step-kept s (receiving id) h = Wrote-kept s _ (receive-Wrote s id) h
  step-kept s (streaming id) h = Wrote-kept s _ (receive_via_stream-Wrote s id) h
  step-kept s (feeding id) h = Wrote-kept s _ (pump_receive-Wrote s id) h

  pub run-kept : (acts : List Act) (s : Shared Peer) → P s → P (run core limit s acts)
  unfolding run
  run-kept [] s h = h
  run-kept (a ∷ acts) s h = run-kept acts _ (step-kept s a h)
