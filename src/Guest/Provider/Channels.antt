-- ===== src/Guest/Provider/Channels.antt =====
-- What the state of a channel promises in wasip3-impl/src/provider.rs, and who owns its messages.
use wasi_webrtc_datachannels.Base.{
  ℕ, ◌≡◌, refl, ap, String, Bool, true, false, none, some, List, [], ◌∷◌, ◌++◌, nat_eq,
  if◌then◌else◌, arith,
}
use wasi_webrtc_datachannels.Guest.State.{
  new_channel, channel_open, apply_event, pop, Channel, Shared, find, channel_mut, put_channel,
  notify,
}
use wasi_webrtc_datachannels.Guest.State.Accounting.{find-id}
use wasi_webrtc_datachannels.Guest.Provider.{
  Error, Result, ok, err, ready, wait, channel_state, receive, receive_via_stream,
  receiving_via_stream, dead,
}
use wasi_webrtc_datachannels.Guest.Provider.Receiving.{find-write}

-- A channel appended under a new id is found.
pub find-last :
    (id : ℕ) (cs : List Channel) (d : Channel)
    → d.id ≡ id
    → find id cs ≡ none
    → find id (cs ++ d ∷ []) ≡ some d
unfolding find
find-last id [] d e h = ground (arith, nat_eq.eq_iff d.id id)
find-last id (c ∷ cs) d e h = ground (arith, nat_eq.eq_iff c.id id, find-last id cs d e)

module _ {Peer : Type 0} where
  stream-taken :
      (s : Shared Peer) (id : ℕ) (c : Channel)
      → channel_mut s id ≡ some c
      → c.stream_claimed ≡ true
      → receive_via_stream s id ≡ (err receiving_via_stream, s)
  unfolding receive_via_stream
  stream-taken s id c e taken = rw (e, receive_via_stream) (rw taken refl)

  receive-taken :
      (s : Shared Peer) (id : ℕ) (c : Channel)
      → channel_mut s id ≡ some c
      → c.stream_claimed ≡ true
      → receive s id ≡ (ready (err receiving_via_stream), s)
  unfolding receive
  receive-taken s id c e taken = rw (e, receive) (rw taken refl)

  abbrev claimed : Shared Peer → Channel → Shared Peer
  claimed s c = notify (put_channel s (record c { stream_claimed = true }))

  abbrev outcome : Shared Peer → Channel → Bool → Bool → Result (Unit {0}) × Shared Peer
  outcome s c a b =
      if a
      then (err receiving_via_stream, s)
      else if b
      then (err Error.closed, s)
      else (ok tt, claimed s c)

  outcome-ok :
      (s : Shared Peer) (c : Channel) (a b : Bool)
      → (outcome s c a b).0 ≡ ok tt
      → (outcome s c a b).1 ≡ claimed s c
  outcome-ok s c true b h = cc
  outcome-ok s c false true h = cc
  outcome-ok s c false false h = refl

  -- What the first call does to a tracked channel, where it succeeds.
  stream-state :
      (s : Shared Peer) (id : ℕ) (c : Channel)
      → channel_mut s id ≡ some c
      → (receive_via_stream s id).0 ≡ ok tt
      → (receive_via_stream s id).1 ≡ claimed s c
  unfolding receive_via_stream
  stream-state s id c e = rw (e, receive_via_stream) (outcome-ok s c c.stream_claimed _)

  claimed-found :
      (s : Shared Peer) (id : ℕ) (c : Channel)
      → channel_mut s id ≡ some c
      → channel_mut (claimed s c) id ≡ some (record c { stream_claimed = true })
  unfolding notify
  claimed-found s id c e = find-write id _ c s.channels (find-id id s.channels c e) e

  -- Once `receive-via-stream` has succeeded on a tracked channel, the stream owns its messages: a
  -- second call fails, and so does `receive`, both without changing the state.
  pub receive_via_stream-claims :
      (s : Shared Peer) (id : ℕ) (c : Channel)
      → channel_mut s id ≡ some c
      → (receive_via_stream s id).0 ≡ ok tt
      → let s' = (receive_via_stream s id).1 in
        (receive_via_stream s' id ≡ (err receiving_via_stream, s'))
        × (receive s' id ≡ (ready (err receiving_via_stream), s'))
  receive_via_stream-claims s id c e h =
      let found = claimed-found s id c e in
      rw (stream-state s id c e h) (stream-taken _ id _ found refl, receive-taken _ id _ found refl)

  stream-opening :
      (s : Shared Peer) (id : ℕ)
      → channel_mut s id ≡ none
      → dead s ≡ false
      → receive_via_stream s id ≡ (ok tt, s)
  unfolding receive_via_stream channel_state
  stream-opening s id e alive = rw (e, receive_via_stream, channel_state) (rw alive refl)

  opened-receive :
      (close_data_channel : Peer → ℕ → Peer) (limit : ℕ) (s : Shared Peer) (id : ℕ) (label : String)
      → channel_mut s id ≡ none
      → dead s ≡ false
      → (receive (apply_event close_data_channel limit s (channel_open id label)) id).0 ≡ wait
  unfolding receive apply_event pop
  opened-receive close_data_channel limit s id label e alive =
      rw (e, apply_event)
        (rw
          (
            find-last id s.channels (record (new_channel id label) { closed = dead s }) refl e,
            receive,
          )
          (rw alive refl))

  -- On a channel that is still opening, on a live connection, `receive-via-stream` returns a stream
  -- and records no claim: a second call returns a second stream, and after the channel has opened
  -- `receive` is not refused but waits for a message.
  pub receive_via_stream_opening_unclaimed :
      (close_data_channel : Peer → ℕ → Peer) (limit : ℕ) (s : Shared Peer) (id : ℕ) (label : String)
      → channel_mut s id ≡ none
      → dead s ≡ false
      → let s' = (receive_via_stream s id).1 in
        ((receive_via_stream s id).0 ≡ ok tt)
        × ((receive_via_stream s' id).0 ≡ ok tt)
        × ((receive (apply_event close_data_channel limit s' (channel_open id label)) id).0 ≡ wait)
  receive_via_stream_opening_unclaimed close_data_channel limit s id label e alive =
      rw (stream-opening s id e alive) (
        refl,
        ap (λ r. r.0) (stream-opening s id e alive),
        opened-receive close_data_channel limit s id label e alive,
      )
