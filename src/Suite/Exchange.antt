-- ===== src/Suite/Exchange.antt =====
-- The payload exchanges of the two-peer tests, conformance/guest/src/lib.rs, over one channel end.
pub mod Ordered
pub mod Passes
use wasi_webrtc_datachannels.Base.{
  ℕ, zero, suc, ◌+◌, ◌-◌, ◌≡◌, Bool, true, false, ◌&&◌, ◌||◌, Option, none, some, String, List, [],
  ◌∷◌, ◌++◌, length, ◌==◌, nat_eq, string_eq, if◌then◌else◌,
}
use wasi_webrtc_datachannels.Base.Text.{bytes}
use wasi_webrtc_datachannels.Guest.Provider.{Error, Message, binary, string, Result}
use wasi_webrtc_datachannels.Suite.Payload.{max, make_payload, payload_index, verify_payload}
use wasi_webrtc_datachannels.Suite.Calls.{
  Detail, said, label_was, unhandled, wrong_count, wrong_index, Checked, ok, err, Calls, Prog, bind,
  ◌>>=◌, ◌>>◌, return, send, receive, join, both,
}

abbrev pub channel_label : String
channel_label = "conformance"

-- Equality of byte vectors.
unfoldable pub same : List ℕ → List ℕ → Bool
same [] [] = true
same [] (y ∷ ys) = false
same (x ∷ xs) [] = false
same (x ∷ xs) (y ∷ ys) = x == y && same xs ys

-- The fields of `TestConfig` that the exchanges read.
pub record TestConfig : Type 0 where
  pub message_count : ℕ
  pub message_size : ℕ

-- `index` counts up from the start, and the first argument is the rounds left.
unfoldable pub send_sequence : ℕ → ℕ → ℕ → Prog (Checked (Unit {0}))
send_sequence zero index size = return (ok tt)
send_sequence (suc n) index size = do
  send (binary (make_payload index size))
  send_sequence n (suc index) size

abbrev pub raw : Message → List ℕ
raw (binary b) = b
raw (string b) = b

unfoldable pub recv_sequence : ℕ → List (List ℕ) → Prog (Checked (List (List ℕ)))
recv_sequence zero out = return (ok out)
recv_sequence (suc n) out = do m ← receive; recv_sequence n (out ++ raw m ∷ [])

unfoldable pub verify_each : List (List ℕ) → Checked (Unit {0})
verify_each [] = ok tt
verify_each (b ∷ bs) =
    let rest = verify_each bs in
    if verify_payload b then rest else err (said "payload failed integrity check")

unfoldable pub verify_all : List (List ℕ) → ℕ → Checked (Unit {0})
verify_all received count =
    if length received == count
    then verify_each received
    else err (wrong_count (length received) count)

abbrev judge_index : ℕ → Checked (Unit {0}) → Option ℕ → Checked (Unit {0})
judge_index position rest (some index) =
    if index == position then rest else err (wrong_index position index)
judge_index position rest none = err (said "payload too short to carry an index")

unfoldable pub verify_indices : ℕ → List (List ℕ) → Checked (Unit {0})
verify_indices position [] = ok tt
verify_indices position (b ∷ bs) =
    judge_index position (verify_indices (suc position) bs) (payload_index b)

abbrev and_then : Checked (Unit {0}) → Checked (Unit {0}) → Checked (Unit {0})
and_then (ok u) k = k
and_then (err d) k = err d

unfoldable pub verify_ordered : List (List ℕ) → ℕ → Checked (Unit {0})
verify_ordered received count = and_then (verify_all received count) (verify_indices 0 received)

-- What `exchange` tells apart.
pub data Exchange : Type 0 where
  label_round_trip : Exchange
  binary_message : Exchange
  text_message : Exchange
  zero_length_message : Exchange
  large_message : Exchange
  max_retransmits_accepted : Exchange
  counted : Exchange
  ordering : Exchange
  other : String → Exchange

unfoldable pub exchange_of : String → Exchange
exchange_of test_id =
    if test_id == "label-round-trip"
    then label_round_trip
    else if test_id == "binary-message"
    then binary_message
    else if test_id == "text-message"
    then text_message
    else if test_id == "zero-length-message"
    then zero_length_message
    else if test_id == "large-message"
    then large_message
    else if test_id == "max-retransmits-accepted"
    then max_retransmits_accepted
    else if test_id == "ordering"
    then ordering
    else if test_id == "concurrent-send-receive"
        || test_id == "message-boundaries"
        || test_id == "payload-integrity"
        || test_id == "interop-handshake"
    then counted
    else other test_id

abbrev check : Bool → Detail → Checked (Unit {0})
check true d = ok tt
check false d = err d

unfoldable pub judge_binary : List ℕ → Message → Checked (Unit {0})
judge_binary payload (binary b) = check (same b payload) (said "binary payload mismatch")
judge_binary payload (string b) = err (said "binary message arrived as text")

unfoldable pub judge_text : List ℕ → Message → Checked (Unit {0})
judge_text text (string b) = check (same b text) (said "text payload mismatch")
judge_text text (binary b) = err (said "text message arrived as binary")

unfoldable pub judge_bytes : String → List ℕ → Message → Checked (Unit {0})
judge_bytes detail payload (binary b) = check (same b payload) (said detail)
judge_bytes detail payload (string b) = err (said detail)

unfoldable pub judge_empty_text : Message → Checked (Unit {0})
judge_empty_text (string b) = check (same b []) (said "expected empty text message")
judge_empty_text (binary b) = err (said "expected empty text message")

-- One message out, and one in.
unfoldable pub echo : Message → (Message → Checked (Unit {0})) → Prog (Checked (Unit {0}))
echo m judge = do send m; got ← receive; return (judge got)

abbrev pub text_bytes : List ℕ
text_bytes = bytes "conformance text message"

unfoldable pub zero_length : Prog (Checked (Unit {0}))
zero_length = do
  send (binary [])
  send (string [])
  first ← receive
  return (judge_bytes "expected empty binary message" [] first)
  second ← receive
  return (judge_empty_text second)

abbrev judged : (List (List ℕ) → Checked (Unit {0})) → List (List ℕ) → Prog (Checked (Unit {0}))
judged verify received = return (verify received)

unfoldable pub send_and_receive :
    ℕ → ℕ → (List (List ℕ) → Checked (Unit {0})) → Prog (Checked (Unit {0}))
unfolding send_sequence recv_sequence
send_and_receive count size verify = do
  received ← λ c.
      bind (join (send_sequence count 0 size) (recv_sequence count []) c) (λ r. return (both r))
  judged verify received

unfoldable pub exchange_as : Exchange → TestConfig → String → Prog (Checked (Unit {0}))
exchange_as label_round_trip config label =
    return (check (label == channel_label) (label_was label))
exchange_as binary_message config label =
    let payload : List ℕ = 0 ∷ 1 ∷ 2 ∷ 3 ∷ 4 ∷ 5 ∷ [] in
    echo (binary payload) (judge_binary payload)
exchange_as text_message config label = echo (string text_bytes) (judge_text text_bytes)
exchange_as zero_length_message config label = zero_length
exchange_as large_message config label =
    let payload = make_payload 0 (max config.message_size 1024) in
    echo (binary payload) (judge_bytes "large payload mismatch" payload)
exchange_as max_retransmits_accepted config label =
    let payload : List ℕ = 9 ∷ 8 ∷ 7 ∷ 6 ∷ [] in
    echo (binary payload) (judge_bytes "unreliable channel payload mismatch" payload)
exchange_as counted config label =
    let count = max config.message_count 1 in
    send_and_receive count (max config.message_size 16) (λ r. verify_all r count)
exchange_as ordering config label =
    let count = max config.message_count 1 in
    send_and_receive count (max config.message_size 16) (λ r. verify_ordered r count)
exchange_as (other test_id) config label = return (err (unhandled test_id))

unfoldable pub exchange : String → TestConfig → String → Prog (Checked (Unit {0}))
unfolding exchange_of exchange_as
exchange test_id config label = exchange_as (exchange_of test_id) config label
