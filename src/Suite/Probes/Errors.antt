-- ===== src/Suite/Probes/Errors.antt =====
-- The error probes of conformance/guest/src/lib.rs on two connected ends.
use wasi_webrtc_datachannels.Base.{
  ℕ, zero, suc, ◌+◌, Bool, true, false, Option, none, some, List, [], ◌∷◌, ltb, if◌then◌else◌,
}
use Prim.Native.String.{◌++◌ as ◌<>◌}
use wasi_webrtc_datachannels.Guest.Provider.{
  Error, receive_buffer_overflow, Message, binary, string, Result,
}
use wasi_webrtc_datachannels.Suite.Payload.{max}
use wasi_webrtc_datachannels.Suite.Calls.{
  said, Checked, ok, err, describe, Calls, Run, Prog, bind, ◌>>=◌, ◌>>◌, return, call_send,
  call_receive, send, receive,
}
use wasi_webrtc_datachannels.Suite.Exchange.{same, TestConfig}
use wasi_webrtc_datachannels.Suite.Probes.{Ends}

abbrev put_offer : {A : Type 0} → Ends → Option (A × Calls) → Option (A × Ends)
put_offer s none = none
put_offer s (some (a, c)) = some (a, record s { offer_dc = c })

abbrev put_answer : {A : Type 0} → Ends → Option (A × Calls) → Option (A × Ends)
put_answer s none = none
put_answer s (some (a, c)) = some (a, record s { answer_dc = c })

abbrev pub on_offer : {A : Type 0} → Prog A → Run Ends A
on_offer m s = put_offer s (m s.offer_dc)

abbrev pub on_answer : {A : Type 0} → Prog A → Run Ends A
on_answer m s = put_answer s (m s.answer_dc)

replicate_byte : ℕ → List ℕ
replicate_byte zero = []
replicate_byte (suc n) = 0xab ∷ replicate_byte n

abbrev unless_err : Result (Unit {0}) → Prog (Checked (Unit {0})) → Prog (Checked (Unit {0}))
unless_err (Result.ok u) k = k
unless_err (Result.err e) k = return (ok tt)

-- The flood ends early at the first send that fails.
unfoldable pub flood : ℕ → List ℕ → Prog (Checked (Unit {0}))
flood zero payload = return (ok tt)
flood (suc n) payload =
    λ c. bind (call_send (binary payload) c) (λ r. unless_err r (flood n payload))

abbrev judge_flooded : Result Message → Checked (Unit {0})
judge_flooded (Result.ok m) = err (said "unexpected message on the flooding side")
judge_flooded (Result.err Error.closed) = ok tt
judge_flooded (Result.err receive_buffer_overflow) = ok tt
judge_flooded (Result.err e) = err (said ("flood-side receive: " <> describe e))

abbrev Loop : Type 0
Loop = Option (Checked (Unit {0}) × List (Result Message))

-- The loops that receive until an error comes, over the results to come.
unfoldable pub drain_overflow : List (Result Message) → Loop
drain_overflow [] = none
drain_overflow (Result.ok m ∷ rs) = drain_overflow rs
drain_overflow (Result.err receive_buffer_overflow ∷ rs) = some (ok tt, rs)
drain_overflow (Result.err e ∷ rs) =
    some (err (said ("expected receive-buffer-overflow, got " <> describe e)), rs)

unfoldable pub drain_closed : List (Result Message) → Loop
drain_closed [] = none
drain_closed (Result.ok m ∷ rs) = drain_closed rs
drain_closed (Result.err Error.closed ∷ rs) = some (ok tt, rs)
drain_closed (Result.err e ∷ rs) = some (err (said ("expected closed, got " <> describe e)), rs)

abbrev left : Calls → Loop → Option (Checked (Unit {0}) × Calls)
left c none = none
left c (some (r, rs)) = some (r, record c { receives = rs })

-- `receive_overflow` between the connection and the closes.
unfoldable pub receive_overflow : TestConfig → Run Ends (Checked (Unit {0}))
unfolding flood drain_overflow replicate_byte
receive_overflow config = do
  on_offer (flood (max config.message_count 1) (replicate_byte (max config.message_size 1)))
  on_offer (λ c. bind (call_receive c) (λ r. return (judge_flooded r)))
  on_answer (λ c. left c (drain_overflow c.receives))

unfoldable pub error_closed : Run Ends (Checked (Unit {0}))
unfolding drain_closed
error_closed = on_offer (λ c. left c (drain_closed c.receives))

-- The loop of `post_close_send`, over the results to come, with the sends that succeeded so far.
abbrev Sends : Type 0
Sends = Option (Checked (Unit {0}) × List (Result (Unit {0})))

unfoldable pub send_until_closed : ℕ → List (Result (Unit {0})) → Sends
send_until_closed sent [] = none
send_until_closed sent (Result.ok u ∷ rs) =
    let rest = send_until_closed (sent + 1) rs in
    if ltb 1000 (sent + 1) then some (err (said "send never failed after close"), rs) else rest
send_until_closed sent (Result.err Error.closed ∷ rs) = some (ok tt, rs)
send_until_closed sent (Result.err e ∷ rs) =
    some (err (said ("expected closed, got " <> describe e)), rs)

-- One message each way: whether both arrived intact. The sides use different ends.
abbrev judge_reply : Message → Bool
judge_reply (binary b) = same b (4 ∷ 5 ∷ 6 ∷ [])
judge_reply (string b) = false

abbrev is_request : Message → Bool
is_request (binary b) = same b (1 ∷ 2 ∷ 3 ∷ [])
is_request (string b) = false

unfoldable pub a_side : Prog (Checked Bool)
a_side = do send (binary (1 ∷ 2 ∷ 3 ∷ [])); m ← receive; return (ok (judge_reply m))

abbrev reply : Bool → Prog (Checked Bool)
reply true = do send (binary (4 ∷ 5 ∷ 6 ∷ [])); return (ok true)
reply false = return (ok false)

unfoldable pub b_side : Prog (Checked Bool)
b_side = do m ← receive; reply (is_request m)

-- `a_ok? && b_ok?`: the second result is looked at only if the first is true.
abbrev and_also : Checked Bool → Checked Bool → Checked Bool
and_also (ok true) b = b
and_also (ok false) b = ok false
and_also (err d) b = err d

unfoldable pub exchange_once : Run Ends (Checked Bool)
unfolding a_side b_side
exchange_once s =
    bind (on_offer a_side s) (λ a t. bind (on_answer b_side t) (λ b. return (and_also a b)))

abbrev judge_once : Bool → Checked (Unit {0})
judge_once true = ok tt
judge_once false = err (said "data channel round trip failed")

-- `inproc_round_trip` on the two ends.
unfoldable pub inproc_round_trip : Run Ends (Checked (Unit {0}))
unfolding exchange_once
inproc_round_trip = do intact ← exchange_once; return (judge_once intact)
