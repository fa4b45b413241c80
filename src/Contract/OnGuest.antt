-- ===== src/Contract/OnGuest.antt =====
-- The exported channel of wasip3-impl/src/provider.rs refines the contract.
use wasi_webrtc_datachannels.Base.{
  ℕ, String, ◌≡◌, refl, ◌∙◌, Bool, true, false, Option, none, some, List, [], ◌∷◌, map, length,
  nat_eq, if◌then◌else◌, false≢true, not, ◌==◌, ◌+◌, ◌%◌, ◌^◌, arith,
}
use wasi_webrtc_datachannels.Guest.State.{
  usize_sub, InboundMessage, Channel, pop, Shared, channel_mut, put_channel, notify,
}
use wasi_webrtc_datachannels.Guest.State.Accounting.{find-id}
use wasi_webrtc_datachannels.Guest.Provider.{
  Error, receive_buffer_overflow, ok, to_message, channel_state, receive, receive_via_stream,
}
use wasi_webrtc_datachannels.Guest.Provider.Receiving.{find-write}
use wasi_webrtc_datachannels.Contract.{
  ReceiveApi, Inbox, contract, IsRefinement, Call, trace, trace-refines,
}

abbrev ending_of : Bool → Bool → Option Error
ending_of overflowed closed =
    if overflowed then some receive_buffer_overflow else if closed then some Error.closed else none

abbrev view_of : Option Channel → Inbox
view_of none = record { backlog = []; claimed = false; ending = some Error.closed }
view_of (some c) = record {
  backlog = map (λ m. ok (to_message m)) c.inbox;
  claimed = c.stream_claimed;
  ending = ending_of c.overflowed c.closed;
}

abbrev channel : ℕ → String → List InboundMessage → ℕ → Bool → Bool → Bool → Channel
channel id label inbox size overflowed claimed closed = record {
  id = id;
  label = label;
  inbox = inbox;
  inbox_bytes = size;
  overflowed = overflowed;
  stream_claimed = claimed;
  closed = closed;
}

ending_of-closed : (overflowed closed : Bool) → ending_of overflowed closed ≡ none → closed ≡ false
ending_of-closed overflowed false e = refl
ending_of-closed true true e = cc
ending_of-closed false true e = cc

-- A receive that waits does so until the version of the shared state is not the one that it saw.
abbrev pub guest_wakes : {Peer : Type 0} → Shared Peer → Shared Peer → Bool
guest_wakes s t = not (t.version == s.version)

next_version : (v : ℕ) → not ((v + 1) % 2 ^ 64 == v) ≡ true
next_version v = ground (arith, nat_eq.eq_iff ((v + 1) % 2 ^ 64) v)

module _ {Peer : Type 0} (id : ℕ) where
  abbrev pub guest_api : ReceiveApi (Shared Peer)
  guest_api = record { receive = λ s. receive s id; claim = λ s. receive_via_stream s id }

  abbrev pub guest_view : Shared Peer → Inbox
  guest_view s = view_of (channel_mut s id)

  -- The channel is tracked, and an overflow has closed it.
  abbrev pub IsTracked : Shared Peer → Type 0
  IsTracked s =
      (c : Channel) × (channel_mut s id ≡ some c) × (c.overflowed ≡ true → c.closed ≡ true)

  put_found :
      (s : Shared Peer) (c d : Channel)
      → channel_mut s id ≡ some c
      → d.id ≡ c.id
      → channel_mut (put_channel s d) id ≡ some d
  put_found s c d e i = find-write id d c s.channels (i ∙ find-id id s.channels c e) e

  abbrev ReceiveStep : Shared Peer → Type 0
  ReceiveStep s =
      IsTracked (receive s id).1
      × (((receive s id).0, guest_view (receive s id).1) ≡ (contract false).receive (guest_view s))

  receive_step :
      (s : Shared Peer) (i : ℕ) (l : String) (ms : List InboundMessage) (n : ℕ) (o t d : Bool)
      → channel_mut s id ≡ some (channel i l ms n o t d)
      → (o ≡ true → d ≡ true)
      → ReceiveStep s
  unfolding receive contract pop
  receive_step s i l ms n o true d e h = rw e (rw e ((channel i l ms n o true d, refl, h), refl))
  receive_step s i l [] n true false d e h =
      rw e (rw e ((channel i l [] n true false d, refl, h), refl))
  receive_step s i l [] n false false true e h =
      rw e (rw e ((channel i l [] n false false true, refl, h), refl))
  receive_step s i l [] n false false false e h =
      rw e (rw e ((channel i l [] n false false false, refl, h), refl))
  receive_step s i l (m ∷ ms) n o false d e h =
      let c = channel i l ms (usize_sub n (length m.payload)) o false d in
      rw e (rw (put_found s (channel i l (m ∷ ms) n o false d) c e refl) ((c, refl, h), refl))

  abbrev ClaimStep : Shared Peer → Type 0
  ClaimStep s =
      IsTracked (receive_via_stream s id).1
      × (((receive_via_stream s id).0, guest_view (receive_via_stream s id).1)
          ≡ (contract false).claim (guest_view s))

  claim_step :
      (s : Shared Peer) (i : ℕ) (l : String) (ms : List InboundMessage) (n : ℕ) (o t d : Bool)
      → channel_mut s id ≡ some (channel i l ms n o t d)
      → (o ≡ true → d ≡ true)
      → ClaimStep s
  unfolding receive_via_stream contract channel_state notify
  claim_step s i l ms n o true d e h = rw e (rw e ((channel i l ms n o true d, refl, h), refl))
  claim_step s i l ms n true false true e h =
      rw e (rw e ((channel i l ms n true false true, refl, h), refl))
  claim_step s i l ms n false false true e h =
      rw e (rw e ((channel i l ms n false false true, refl, h), refl))
  claim_step s i l ms n true false false e h = absurd (false≢true (h refl))
  claim_step s i l ms n false false false e h =
      let c = channel i l ms n false true false in
      rw e (rw (put_found s (channel i l ms n false false false) c e refl) ((c, refl, h), refl))

  pub guest_refines : IsRefinement guest_api false guest_view IsTracked
  guest_refines = record {
    receive_good = λ s g. (receive_step s _ _ _ _ _ _ _ g.1 g.2).0;
    claim_good = λ s g. (claim_step s _ _ _ _ _ _ _ g.1 g.2).0;
    receive_view = λ s g. (receive_step s _ _ _ _ _ _ _ g.1 g.2).1;
    claim_view = λ s g. (claim_step s _ _ _ _ _ _ _ g.1 g.2).1;
  }

  woken_step :
      (s : Shared Peer) (i : ℕ) (l : String) (ms : List InboundMessage) (n : ℕ) (o t d : Bool)
      → channel_mut s id ≡ some (channel i l ms n o t d)
      → t ≡ false
      → d ≡ false
      → guest_wakes s (receive_via_stream s id).1 ≡ true
  unfolding receive_via_stream channel_state notify
  woken_step s i l ms n o true d e claimed closed = cc
  woken_step s i l ms n o false true e claimed closed = cc
  woken_step s i l ms n o false false e claimed closed = rw e (next_version s.version)

  -- A claim of a channel that is open and not claimed wakes the receives that wait.
  pub guest_woken :
      (s : Shared Peer)
      → IsTracked s
      → (guest_view s).claimed ≡ false
      → (guest_view s).ending ≡ none
      → guest_wakes s (guest_api.claim s).1 ≡ true
  guest_woken s (c, e, h) claimed going =
      woken_step s _ _ _ _ _ _ _ e (rw e at claimed)
        (ending_of-closed c.overflowed c.closed (rw e at going))

  -- Whatever calls of `receive` and `receive-via-stream` a client of the guest makes on a channel
  -- that is tracked, one after the other while nothing arrives, it sees what the contract says of the
  -- channel's view: the buffered messages in order, then the overflow or the close or a wait; and once
  -- it has claimed the messages, `receiving-via-stream` from both calls. A closed channel is not
  -- claimed any more. An overflow has closed the channel.
  pub guest_trace :
      (cs : List Call) (s : Shared Peer)
      → IsTracked s
      → trace guest_api cs s ≡ trace (contract false) cs (guest_view s)
  guest_trace = trace-refines guest_api false guest_view IsTracked guest_refines
