-- ===== src/Guest/Provider/Incoming.antt =====
-- `pump_incoming` of wasip3-impl/src/provider.rs: what it yields of the channels of a connection.
use wasi_webrtc_datachannels.Base.{
  ℕ, zero, suc, ◌≡◌, refl, ap, ◌∙◌, true, false, Option, none, some, List, [], ◌∷◌, length, ◌<◌,
  ◌≢◌, nat_eq, not, arith, filter, ◌≤◌, All, Bool-cases, inl, inr,
}
use wasi_webrtc_datachannels.Guest.State.{Channel, Shared}
use wasi_webrtc_datachannels.Guest.Provider.{
  DataChannel, next_incoming, is_local, send, sent, send_in, ChannelState, open_, opening, ok, err,
  channel_state, Message, Result,
}

-- The handles that a number of turns of the loop yield, while there are more. Each turn that finds a
-- channel makes one queue.
next_or_end : Option DataChannel → (ℕ → List DataChannel) → ℕ → List DataChannel
next_or_end none rest fresh = []
next_or_end (some d) rest fresh = d ∷ rest (suc fresh)

unfoldable pub incoming : Option ℕ → ℕ → ℕ → List Channel → List DataChannel
unfolding next_or_end
incoming l zero fresh cs = []
incoming l (suc n) fresh cs =
    let (found, after) = next_incoming l fresh cs in
    next_or_end found (λ f. incoming l n f after) fresh

-- What is yielded for a list of channels whose first gets the queue `fresh`.
abbrev pub handles : ℕ → List Channel → List DataChannel
handles fresh [] = []
handles fresh (c ∷ cs) =
    record { id = c.id; label = c.label; waker = fresh } ∷ handles (suc fresh) cs

-- The channels that are not the local one.
abbrev pub remote : Option ℕ → List Channel → List Channel
remote l = filter (λ c. not (is_local l c.id))

incoming-none : (l : Option ℕ) (n fresh : ℕ) → incoming l n fresh [] ≡ []
unfolding incoming next_incoming
incoming-none l zero fresh = refl
incoming-none l (suc n) fresh = refl

incoming-local :
    (l : Option ℕ) (n fresh : ℕ) (c : Channel) (cs : List Channel)
    → is_local l c.id ≡ true
    → incoming l (suc n) fresh (c ∷ cs) ≡ incoming l (suc n) fresh cs
unfolding incoming next_incoming
incoming-local l n fresh c cs e = rw e refl

incoming-yield :
    (l : Option ℕ) (n fresh : ℕ) (c : Channel) (cs : List Channel)
    → is_local l c.id ≡ false
    → incoming l (suc n) fresh (c ∷ cs)
      ≡ record { id = c.id; label = c.label; waker = fresh } ∷ incoming l n (suc fresh) cs
unfolding incoming next_incoming
incoming-yield l n fresh c cs e = rw e refl

-- Enough turns yield each channel that is not the local one, once and in the order in which the
-- channels opened, with its id and label and a queue of its own.
pub incoming-remote :
    (l : Option ℕ) (n fresh : ℕ) (cs : List Channel)
    → length cs ≤ n
    → incoming l n fresh cs ≡ handles fresh (remote l cs)
incoming-remote l n fresh [] h = incoming-none l n fresh
incoming-remote l zero fresh (c ∷ cs) h = ground (arith, h)
incoming-remote l (suc n) fresh (c ∷ cs) h = elim (Bool-cases (is_local l c.id)) [
  | inl e ↦
      rw (e, remote)
        (incoming-local l n fresh c cs e ∙ incoming-remote l (suc n) fresh cs (omega arith))
  | inr e ↦
      rw (e, remote)
        (incoming-yield l n fresh c cs e
          ∙ ap (λ r. record { id = c.id; label = c.label; waker = fresh } ∷ r)
              (incoming-remote l n (suc fresh) cs (omega arith)))
]

module _ {Peer : Type 0} (send_to : Peer → ℕ → Message → Result (Unit {0}) × Peer) where
  -- No `send` on the handle, in whatever state, is heard on the queue.
  abbrev pub Unheard : ℕ → DataChannel → Type 0
  Unheard queue d = (s : Shared Peer) (m : Message) → (send send_to d s m).0.1 ≢ some queue

  sent-Unheard :
      (queue : ℕ) (d : DataChannel) (s : Shared Peer) (r : Result (Unit {0}) × Peer)
      → d.waker ≢ queue
      → (sent send_to d s r).0.1 ≢ some queue
  unfolding sent
  sent-Unheard queue d s (ok u, p) e h = e (cc)
  sent-Unheard queue d s (err x, p) e h = cc

  send_in-Unheard :
      (queue : ℕ) (d : DataChannel) (st : ChannelState) (s : Shared Peer) (m : Message)
      → d.waker ≢ queue
      → (send_in send_to st d s m).0.1 ≢ some queue
  unfolding send_in
  send_in-Unheard queue d open_ s m e h = sent-Unheard queue d s (send_to s.peer d.id m) e h
  send_in-Unheard queue d ChannelState.closed s m e h = cc
  send_in-Unheard queue d opening s m e h = cc

  handles-Unheard :
      (queue fresh : ℕ) (cs : List Channel) → queue < fresh → All (Unheard queue) (handles fresh cs)
  unfolding send
  handles-Unheard queue fresh [] h = tt
  handles-Unheard queue fresh (c ∷ cs) h = (
    (λ s m.
        let d : DataChannel = record { id = c.id; label = c.label; waker = fresh } in
        send_in-Unheard queue d (channel_state s c.id) s m (λ e. omega (arith, e, h))),
    handles-Unheard queue (suc fresh) cs (omega arith),
  )

  -- No `send` on a channel that the stream of incoming channels has yielded, in whatever state of the
  -- connection, sends on the queue of the pump, which is older than every queue that the stream makes.
  pub incoming-Unheard :
      (l : Option ℕ) (n pump fresh : ℕ) (cs : List Channel)
      → length cs ≤ n
      → pump < fresh
      → All (Unheard pump) (incoming l n fresh cs)
  incoming-Unheard l n pump fresh cs h older =
      rw (incoming-remote l n fresh cs h) (handles-Unheard pump fresh (remote l cs) older)
