-- ===== src/Suite/Barrier.antt =====
-- The rendezvous of the two-peer tests before they tear down, and the end of `run_two_peer`, in
-- conformance/guest/src/lib.rs.
pub mod TwoPeer
use wasi_webrtc_datachannels.Base.{
  ℕ, ◌≡◌, Bool, true, false, Option, none, some, String, List, [], ◌∷◌, ◌++◌, if◌then◌else◌,
}
use Prim.Native.String.{◌++◌ as ◌<>◌}
use wasi_webrtc_datachannels.Base.Text.{bytes}
use wasi_webrtc_datachannels.Guest.Provider.{Error, Message, binary, string, Result}
use wasi_webrtc_datachannels.Suite.Calls.{
  Detail, said, Checked, ok, err, describe, Calls, Prog, bind, return, call_send, join, both,
}
use wasi_webrtc_datachannels.Suite.Exchange.{same, TestConfig, exchange}

abbrev pub sentinel : List ℕ
sentinel = bytes "__conformance_barrier__"

abbrev send_side_of : Result (Unit {0}) → Checked (Unit {0})
send_side_of (Result.ok u) = ok tt
send_side_of (Result.err Error.closed) = ok tt
send_side_of (Result.err e) = err (said ("send: " <> describe e))

unfoldable pub send_side : Prog (Checked (Unit {0}))
send_side c = bind (call_send (binary sentinel) c) (λ r. return (send_side_of r))

abbrev pub is_sentinel : Message → Bool
is_sentinel (binary b) = same b sentinel
is_sentinel (string b) = false

abbrev pub Loop : Type 0
Loop = Option (Checked (Unit {0}) × List (Result Message))

-- The loop of the receiving side, over the results that are still to come.
unfoldable pub recv_loop : List (Result Message) → Loop
recv_loop [] = none
recv_loop (Result.ok m ∷ rs) =
    let rest = recv_loop rs in if is_sentinel m then some (ok tt, rs) else rest
recv_loop (Result.err Error.closed ∷ rs) = some (ok tt, rs)
recv_loop (Result.err e ∷ rs) = some (err (said ("receive: " <> describe e)), rs)

abbrev left : Calls → Loop → Option (Checked (Unit {0}) × Calls)
left c none = none
left c (some (r, rs)) = some (r, record c { receives = rs })

unfoldable pub recv_side : Prog (Checked (Unit {0}))
recv_side c = left c (recv_loop c.receives)

unfoldable pub barrier : Prog (Checked (Unit {0}))
unfolding send_side recv_side
barrier c = bind (join send_side recv_side c) (λ r. return (both r))

abbrev then_barrier : Checked (Unit {0}) → Prog (Checked (Unit {0}))
then_barrier (ok u) = barrier
then_barrier (err d) = return (err d)

-- What `run_two_peer` does on the connected channel; the connection is closed afterwards.
unfoldable pub run_connected : String → TestConfig → String → Prog (Checked (Unit {0}))
run_connected test_id config label c = bind (exchange test_id config label c) then_barrier
