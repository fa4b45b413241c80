-- ===== src/Adapters/Outcome.antt =====
-- The outcomes of test instances, and the plans and parameters of the tests, in
-- conformance/adapters/common/src/lib.rs. Messages of errors of other crates are parameters or texts.
pub mod Folding
use Prim.Native.String.{◌++◌ as ◌<>◌}
use wasi_webrtc_datachannels.Base.{
  ℕ, ◌*◌, ◌≡◌, Bool, true, false, ◌||◌, not, Option, none, some, String, List, [], ◌∷◌, ◌++◌, map,
  filter, any, leb, ◌==◌, nat_eq, string_eq, if◌then◌else◌,
}
use wasi_webrtc_datachannels.Base.Text.{codes}
use wasi_webrtc_datachannels.Runner.Plan.{RawStatus, RawResult, AdapterReport}

pub data TestOutcome : Type 0 where
  pass : TestOutcome
  fail : String → TestOutcome
  skipped : String → TestOutcome

-- JSON values, as far as the code looks into them.
mutual
  pub data Value : Type 0 where
    text : String → Value
    object : Fields → Value
    other : Value

  pub data Fields : Type 0 where
    end : Fields
    field : String → Value → Fields → Fields

unfoldable pub to_json : TestOutcome → Value
to_json pass = object (field "tag" (text "pass") end)
to_json (fail detail) = object (field "tag" (text "fail") (field "val" (text detail) end))
to_json (skipped reason) = object (field "tag" (text "skipped") (field "val" (text reason) end))

unfoldable pub get_field : String → Fields → Option Value
get_field k end = none
get_field k (field j v fs) = if j == k then some v else get_field k fs

abbrev get : String → Value → Option Value
get k (object fs) = get_field k fs
get k (text s) = none
get k other = none

abbrev as_str : Option Value → Option String
as_str none = none
as_str (some (text s)) = some s
as_str (some (object fs)) = none
as_str (some other) = none

abbrev or_empty : Option String → String
or_empty none = ""
or_empty (some s) = s

pub data ParseError : Type 0 where
  missing_tag : ParseError
  unknown_tag : String → ParseError
  no_result_line : ParseError
  not_json : String → ParseError

pub data Parsed : Type 0 where
  ok : TestOutcome → Parsed
  err : ParseError → Parsed

abbrev by_tag : Option String → String → Parsed
by_tag none detail = err missing_tag
by_tag (some tag) detail =
    if tag == "pass"
    then ok pass
    else if tag == "fail"
    then ok (fail detail)
    else if tag == "skipped"
    then ok (skipped detail)
    else err (unknown_tag tag)

unfoldable pub parse_outcome : Value → Parsed
unfolding get_field
parse_outcome value = by_tag (as_str (get "tag" value)) (or_empty (as_str (get "val" value)))

unfoldable pub fold_two : TestOutcome → TestOutcome → TestOutcome
fold_two (fail a) (fail b) = fail ("offerer: " <> a <> "; answerer: " <> b)
fold_two (fail a) pass = fail ("offerer: " <> a)
fold_two (fail a) (skipped b) = fail ("offerer: " <> a)
fold_two pass (fail b) = fail ("answerer: " <> b)
fold_two (skipped a) (fail b) = fail ("answerer: " <> b)
fold_two (skipped a) pass = skipped a
fold_two (skipped a) (skipped b) = skipped a
fold_two pass (skipped b) = skipped b
fold_two pass pass = pass

abbrev pub raw : String → RawStatus → Option String → RawResult
raw test_id status detail = record { test_id = test_id; status = status; detail = detail }

unfoldable pub outcome_to_raw : String → TestOutcome → RawResult
outcome_to_raw test_id pass = raw test_id RawStatus.pass none
outcome_to_raw test_id (skipped reason) = raw test_id RawStatus.skip (some reason)
outcome_to_raw test_id (fail detail) = raw test_id RawStatus.fail (some detail)

abbrev pub tests : List String
tests =
    "label-round-trip" ∷ "binary-message" ∷ "text-message" ∷ "message-boundaries"
    ∷ "zero-length-message" ∷ "large-message" ∷ "ordering" ∷ "payload-integrity"
    ∷ "concurrent-send-receive" ∷ "send-via-stream" ∷ "receive-via-stream"
    ∷ "receive-via-stream-once" ∷ "post-close-send" ∷ "receive-buffer-overflow"
    ∷ "max-retransmits-accepted" ∷ "error-invalid-signaling" ∷ "error-closed" ∷ "error-timed-out"
    ∷ "peer-offer-answer" ∷ "peer-create-data-channel" ∷ "peer-local-ice-candidates"
    ∷ "peer-add-ice-candidate" ∷ "peer-wait-connected" ∷ "peer-close-releases" ∷ "peer-invalid-sdp"
    ∷ "interop-handshake" ∷ []

abbrev pub two_peer_tests : List String
two_peer_tests =
    "label-round-trip" ∷ "binary-message" ∷ "text-message" ∷ "message-boundaries"
    ∷ "zero-length-message" ∷ "large-message" ∷ "ordering" ∷ "payload-integrity"
    ∷ "concurrent-send-receive" ∷ "max-retransmits-accepted" ∷ "interop-handshake" ∷ []

pub data Plan : Type 0 where
  in_process : Plan
  skip : Plan
  two_peer : Plan

abbrev in_process_tests : List String
in_process_tests =
    "peer-offer-answer" ∷ "peer-create-data-channel" ∷ "peer-local-ice-candidates"
    ∷ "peer-add-ice-candidate" ∷ "peer-wait-connected" ∷ "peer-close-releases" ∷ "peer-invalid-sdp"
    ∷ "error-invalid-signaling" ∷ "error-closed" ∷ "error-timed-out" ∷ "post-close-send"
    ∷ "receive-buffer-overflow" ∷ "send-via-stream" ∷ "receive-via-stream"
    ∷ "receive-via-stream-once" ∷ []

unfoldable pub plan_for : String → Plan
plan_for test_id = if any (λ t. t == test_id) in_process_tests then in_process else two_peer

abbrev counted_tests : List String
counted_tests =
    "message-boundaries" ∷ "ordering" ∷ "payload-integrity" ∷ "concurrent-send-receive"
    ∷ "interop-handshake" ∷ []

unfoldable pub params_for : String → ℕ × ℕ
params_for test_id =
    if test_id == "large-message"
    then (1, 16384)
    else if test_id == "receive-buffer-overflow"
    then (64, 16384)
    else if any (λ t. t == test_id) counted_tests
    then (16, 512)
    else (4, 256)

abbrev pub conformance_max_inbound_buffer_bytes : ℕ
conformance_max_inbound_buffer_bytes = 512 * 1024

-- How one attempt ended: with the folded outcome, with an error's text, or by the timeout.
pub data Attempted : Type 0 where
  returned : TestOutcome → Attempted
  failed : String → Attempted
  elapsed : Attempted

unfoldable pub attempt_outcome : Attempted → TestOutcome
attempt_outcome (returned outcome) = outcome
attempt_outcome (failed error) = fail ("adapter error: " <> error)
attempt_outcome elapsed = fail "attempt timed-out"

unfoldable pub run_test : String → Attempted → RawResult
unfolding attempt_outcome outcome_to_raw
run_test test_id attempted = outcome_to_raw test_id (attempt_outcome attempted)

abbrev pub selected : List String → String → Bool
selected [] test_id = true
selected (o ∷ only) test_id = any (λ t. t == test_id) (o ∷ only)

-- `buffered` keeps the order of the tests, whatever the order in which the runs end.
unfoldable pub run_corpus : List String → List String → (String → RawResult) → List RawResult
run_corpus ts only run = map run (filter (selected only) ts)

-- The two joined instances of a test; the offerer's error comes first.
pub data Instance : Type 0 where
  ok : TestOutcome → Instance
  err : String → Instance

unfoldable pub joined : Instance → Instance → Attempted
unfolding fold_two
joined (ok o) (ok a) = returned (fold_two o a)
joined (ok o) (err e) = failed e
joined (err e) a = failed e
