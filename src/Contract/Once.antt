-- ===== src/Contract/Once.antt =====
-- The probe `receive_via_stream_once` of conformance/guest/src/lib.rs, over any implementation of the
-- two calls, and that it passes on both.
use wasi_webrtc_datachannels.Base.{Bool, false, if◌then◌else◌, Option, none, some, List, [], ◌∷◌}
use Prim.Native.String.{String, ◌++◌ as ◌<>◌}
use wasi_webrtc_datachannels.Guest.Provider.{
  receiving_via_stream, Message, Result, Attempt, ready, wait,
}
use wasi_webrtc_datachannels.Suite.Calls.{said, Checked, ok, err, describe}
use wasi_webrtc_datachannels.Contract.{
  ReceiveApi, Inbox, Call, receive, claim, Seen, received, claimed,
}

abbrev End : Type 0
End = Option (Checked (Unit {0}))

-- A result must be the error `receiving-via-stream`; the texts are those of the other outcomes.
abbrev expect_claimed {ℓ} : {A : Type ℓ} → String → String → Result A → End → End
expect_claimed succeeded what (Result.err receiving_via_stream) rest = rest
expect_claimed succeeded what (Result.ok a) rest = some (err (said succeeded))
expect_claimed succeeded what (Result.err e) rest =
    some (err (said (what <> ": expected receiving-via-stream, got " <> describe e)))

abbrev expect_first : Result (Unit {0}) → End → End
expect_first (Result.ok u) rest = rest
expect_first (Result.err e) rest = some (err (said ("first receive-via-stream: " <> describe e)))

-- `none` where a call that is awaited never ends.
abbrev expect_later : Attempt Message → End
expect_later wait = none
expect_later (ready l) =
    expect_claimed "receive after claim yielded a message" "receive after claim" l (some (ok tt))

abbrev judged : Result (Unit {0}) → Attempt Message → Result (Unit {0}) → Attempt Message → End
judged first wait second later = none
judged first (ready p) second later = expect_first first (
    expect_claimed "pending receive yielded a message" "pending receive" p (
      expect_claimed "second receive-via-stream succeeded" "second receive-via-stream" second
        (expect_later later)))

module _ {S : Type 0} (api : ReceiveApi S) (wakes : S → S → Bool) where
  -- The calls after the first claim.
  abbrev rest : Result (Unit {0}) → Attempt Message → S → End
  rest first pending s =
      let (second, t) = api.claim s in
      let (later, u) = api.receive t in judged first pending second later

  -- `join!` polls the receive, which may be ready at once, then makes the claim, then polls a
  -- receive that waited again if the claim has woken it (`wakes` of the states before and after);
  -- if not, the probe hangs. A check that fails ends the test,
  -- whatever the calls after it would give.
  abbrev joined : Attempt Message → S → End
  joined (ready p) s = let (first, t) = api.claim s in rest first (ready p) t
  joined wait s =
      let (first, t) = api.claim s in
      let (pending, u) = api.receive t in if wakes s t then rest first pending u else none

  unfoldable pub receive_via_stream_once : S → End
  receive_via_stream_once s = let (pending, t) = api.receive s in joined pending t

-- The calls that are made where the first receive waits, and what is made of their results.
abbrev probe : List Call
probe = receive ∷ claim ∷ receive ∷ claim ∷ receive ∷ []

abbrev judge_trace : List Seen → End
judge_trace (received w ∷ claimed first ∷ received p ∷ claimed second ∷ received l ∷ []) =
    judged first p second l
judge_trace other = none

abbrev pub open_inbox : Inbox
open_inbox = record { backlog = []; claimed = false; ending = none }
