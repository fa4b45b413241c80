-- ===== src/Signaling/LongPoll.antt =====
-- The blocking `fetch` of conformance/signaling/server/src/state.rs, one step for each stretch
-- between two points where other tasks run. `Notify` of tokio is a parameter: `woken n calls` tells
-- whether a `notified()` future of notifier `n` has resolved, from the calls of `notify_waiters` on
-- any notifier since the future was made, the latest first.
pub mod Watching
pub mod Guard
pub mod NoLostWake
pub mod LostWake
pub mod CallLog
use wasi_webrtc_datachannels.Base.{
  ℕ, ◌+◌, ◌-◌, ◌≡◌, ◌≢◌, refl, String, Bool, true, false, List, [], ◌∷◌, length, take, ◌==◌, nat_eq,
  leb, if◌then◌else◌, arith, Bool-cases,
}
use wasi_webrtc_datachannels.Signaling.Mailbox.{Role, Fetch, blob, pending}
use wasi_webrtc_datachannels.Signaling.Rooms.{Rooms, fetch_now, Op, step}

pub record Notify : Type 0 where
  pub woken : ℕ → List ℕ → Bool
  pub waits : (n : ℕ) → woken n [] ≡ false
  pub wakes : (n : ℕ) (calls : List ℕ) → woken n (n ∷ calls) ≡ true
  pub others : (n j : ℕ) (calls : List ℕ) → n ≢ j → woken n (j ∷ calls) ≡ woken n calls

-- Where a fetch stands: `peeked` with the notifier that the first peek returned and the time that
-- is left, `armed` once `notified()` was called when `mark` calls had been made, `parked` in the
-- timeout.
pub data Phase : Type 0 where
  start : Phase
  peeked : ℕ → ℕ → Phase
  armed : ℕ → ℕ → ℕ → Phase
  parked : ℕ → ℕ → ℕ → Phase
  returned : Fetch → Phase

pub record Poll : Type 0 where
  pub room : String
  pub role : Role
  pub seq : ℕ
  pub deadline : ℕ

-- `fetch` up to its loop.
unfoldable pub begin : ℕ → String → Role → ℕ → ℕ → Poll
begin now room role seq wait = record { room = room; role = role; seq = seq; deadline = now + wait }

-- `Blob` and `Done` return, `Pending` goes on.
abbrev pub settle : Fetch → Phase → Phase
settle (blob b) next = returned (blob b)
settle Fetch.done next = returned Fetch.done
settle pending next = next

abbrev pub since : ℕ → List ℕ → List ℕ
since mark calls = take (length calls - mark) calls

module _ (notify : Notify) (p : Poll) where
  unfoldable pub poll : ℕ → Rooms → Phase → Phase × Rooms
  poll now s start =
      let ((outcome, n), s') = fetch_now s now p.room p.role p.seq in
      let left = p.deadline - now in
      (settle outcome (if left == 0 then returned pending else peeked n left), s')
  poll now s (peeked n left) = (armed n (length s.calls) left, s)
  poll now s (armed n mark left) =
      let ((recheck, _), s') = fetch_now s now p.room p.role p.seq in
      (settle recheck (parked n mark (now + left)), s')
  poll now s (parked n mark until) =
      if notify.woken n (since mark s.calls)
      then (start, s)
      else if leb until now
      then (returned pending, s)
      else (parked n mark until, s)
  poll now s (returned f) = (returned f, s)

-- Other tasks call the store, and the fetch is polled.
pub data Event : Type 0 where
  call : Op → Event
  polls : ℕ → Event

module _ (notify : Notify) (p : Poll) where
  unfoldable pub advance : Phase × Rooms → Event → Phase × Rooms
  advance (f, s) (call o) = (f, step s o)
  advance (f, s) (polls now) = poll notify p now s f

  unfoldable pub advance_all : Phase × Rooms → List Event → Phase × Rooms
  advance_all w [] = w
  advance_all w (e ∷ es) = advance_all (advance w e) es
