-- ===== src/Adapters/Session.antt =====
-- The mailbox clients of the adapters: `MailboxSession` of conformance/adapters/wasmtime/src/lib.rs and
-- of conformance/adapters/wasip3/mailbox/src/lib.rs. A reply is its status, its `x-done` header and
-- its bytes, or the text of a failure; a request gets the next reply of a list, as a function of the
-- number that it asks for.
pub mod Served
pub mod Delivery
use Prim.Native.Char.{Char, code}
use Prim.Native.String.{◌++◌ as ◌<>◌}
use mathlib.Core.Option
use wasi_webrtc_datachannels.Base.{
  ℕ, zero, suc, ◌+◌, ◌%◌, ◌^◌, Bool, true, false, ◌&&◌, Option, none, some, String, List, [], ◌∷◌,
  ltb, leb, ◌==◌, nat_eq, if◌then◌else◌,
}
use wasi_webrtc_datachannels.Base.Text.{decimal}
use wasi_webrtc_datachannels.Guest.Provider.{Error, Result, ok, err}
use wasi_webrtc_datachannels.Signaling.Mailbox.{Role, offerer, answerer, Blob}

pub record MailboxSession : Type 0 where
  pub base : String
  pub room : String
  pub role : Role
  pub recv_seq : ℕ

unfoldable pub role_str : Role → String
role_str offerer = "offerer"
role_str answerer = "answerer"

unfoldable pub own_role : MailboxSession → String
unfolding role_str
own_role s = role_str s.role

abbrev pub other_role : Role → Role
other_role offerer = answerer
other_role answerer = offerer

unfoldable pub peer_role : MailboxSession → String
unfolding role_str
peer_role s = role_str (other_role s.role)

abbrev unless_last : Char → String → String
unless_last c String.[] = if code c == b'/' then "" else String.◌∷◌ c String.[]
unless_last c (String.◌∷◌ d s) = String.◌∷◌ c (String.◌∷◌ d s)

-- `trim_end_matches('/')`.
unfoldable pub trim_end : String → String
trim_end String.[] = ""
trim_end (String.◌∷◌ c s) = unless_last c (trim_end s)

unfoldable pub open_session : String → String → Role → MailboxSession
unfolding trim_end
open_session server room role = record {
  base = trim_end server;
  room = room;
  role = role;
  recv_seq = 0;
}

unfoldable pub mailbox_error : String → Error
mailbox_error detail = Error.other ("mailbox: " <> detail)

pub record Reply : Type 0 where
  pub status : ℕ
  pub done : Bool
  pub body : Blob

pub data Outcome : Type 0 where
  replied : Reply → Outcome
  failed : String → Outcome

abbrev is_success : ℕ → Bool
is_success status = leb 200 status && ltb status 300

abbrev room_url : MailboxSession → String → String
room_url s role = s.base <> "/rooms/" <> s.room <> "/" <> role

unfoldable pub publish_url : MailboxSession → String
unfolding own_role
publish_url s = room_url s (own_role s)

unfoldable pub done_url : MailboxSession → String
unfolding own_role
done_url s = room_url s (own_role s) <> "/done"

-- The wasmtime client also names its patience.
unfoldable pub wasmtime_fetch_url : MailboxSession → String
unfolding peer_role
wasmtime_fetch_url s = room_url s (peer_role s) <> "?seq=" <> decimal s.recv_seq <> "&wait=10000"

unfoldable pub wasip3_fetch_url : MailboxSession → String
unfolding peer_role
wasip3_fetch_url s = room_url s (peer_role s) <> "?seq=" <> decimal s.recv_seq

-- `send` and `done`, from the reply; `what` is the text of the client for the call.
unfoldable pub posted : String → Outcome → Result (Unit {0})
unfolding mailbox_error
posted what (failed text) = err (mailbox_error text)
posted what (replied r) =
    if is_success r.status then ok tt else err (mailbox_error (what <> decimal r.status))

-- What a client does with a reply to a fetch.
pub data Next : Type 0 where
  deliver : Blob → Next
  finish : Next
  retry : Next
  fail : Error → Next

unfoldable pub wasmtime_next : Outcome → Next
unfolding mailbox_error
wasmtime_next (failed text) = fail (mailbox_error text)
wasmtime_next (replied r) =
    if r.status == 200
    then deliver r.body
    else if r.status == 204
    then finish
    else if r.status == 304
    then retry
    else fail (mailbox_error ("fetch status " <> decimal r.status))

unfoldable pub wasip3_next : Outcome → Next
unfolding mailbox_error
wasip3_next (failed text) = fail (mailbox_error text)
wasip3_next (replied r) =
    if r.status == 200
    then deliver r.body
    else if r.status == 204 && r.done
    then finish
    else if r.status == 304
    then retry
    else fail (mailbox_error ("fetch returned " <> decimal r.status))

abbrev pub Answers : Type 0
Answers = List (ℕ → Outcome)

abbrev pub Received : Type 0
Received = Option (Result (Option Blob) × MailboxSession × Answers)

module _ (next : Outcome → Next) where
  abbrev act : Next → MailboxSession → Answers → Received → Received
  act (deliver b) s rest again =
      some (ok (some b), record s { recv_seq = (s.recv_seq + 1) % 2 ^ 64 }, rest)
  act finish s rest again = some (ok none, s, rest)
  act retry s rest again = again
  act (fail e) s rest again = some (err e, s, rest)

  -- `recv`: the loop over the replies; `none` where none of them ends it.
  unfoldable pub recv : Answers → MailboxSession → Received
  recv [] s = none
  recv (a ∷ rest) s = let again = recv rest s in act (next (a s.recv_seq)) s rest again

  -- A consumer that receives until the end, as `consume_signaling` of the guest does; `none` where a
  -- call fails or does not return. The number bounds the calls.
  abbrev go_on : Received → (Answers → MailboxSession → Option (List Blob)) → Option (List Blob)
  go_on none k = none
  go_on (some (ok (some b), s, rest)) k = Option.map (λ bs. b ∷ bs) (k rest s)
  go_on (some (ok none, s, rest)) k = some []
  go_on (some (err e, s, rest)) k = none

  unfoldable pub receive_all : ℕ → Answers → MailboxSession → Option (List Blob)
  unfolding recv
  receive_all zero l s = none
  receive_all (suc calls) l s = go_on (recv l s) (receive_all calls)
