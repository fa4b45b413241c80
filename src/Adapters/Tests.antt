-- ===== src/Adapters/Tests.antt =====
-- The theorems on conformance/adapters at concrete runs.
use wasi_webrtc_datachannels.Base.{
  none, suc, ◌≡◌, refl, true, false, ◌&&◌, any, some, String, List, [], ◌∷◌, ◌++◌, length, ◌==◌,
  string_eq, if◌then◌else◌, arith,
}
use wasi_webrtc_datachannels.Signaling.Mailbox.{offerer, Mailbox}
use wasi_webrtc_datachannels.Runner.Plan.{TestEntry, classify, has_failures}
use wasi_webrtc_datachannels.Adapters.Outcome.{TestOutcome, Attempted, returned, elapsed}
use wasi_webrtc_datachannels.Adapters.Verdict.{plain, fails, ran, report, run_verdict}
use wasi_webrtc_datachannels.Adapters.PeerCommand.{PeerRole, PeerRun, role_as_str, shared_peer_args}
use wasi_webrtc_datachannels.Adapters.Driver.{ok, parse_args}
use wasi_webrtc_datachannels.Adapters.Driver.RoundTrip.{asked, parse_args-shared}
use wasi_webrtc_datachannels.Adapters.Session.{
  open_session, wasmtime_next, wasip3_next, Answers, receive_all,
}
use wasi_webrtc_datachannels.Adapters.Session.Served.{answer, IsBefore, copies}
use wasi_webrtc_datachannels.Adapters.Session.Delivery.{receive_all-delivers}

abbrev entry : String → TestEntry
entry id = record { id = id; tags = []; description = "" }

-- One test passes, the other times out.
abbrev attempts : String → Attempted
attempts t = if t == "ordering" then returned TestOutcome.pass else elapsed

abbrev ids : List String
ids = "ordering" ∷ "label-round-trip" ∷ []

run_verdict_example :
    has_failures (
      classify
        (entry "ordering" ∷ entry "label-round-trip" ∷ [])
        (plain "wasip3" ∷ [])
        (report attempts "wasip3" "local" ids [] ∷ []))
    ≡ any
        (λ e. ran attempts ids [] e.id && fails attempts e.id)
        (entry "ordering" ∷ entry "label-round-trip" ∷ [])
run_verdict_example =
    run_verdict attempts (entry "ordering" ∷ entry "label-round-trip" ∷ []) "wasip3" "local" ids []

abbrev first : Mailbox
first = record { blobs = (1 ∷ []) ∷ []; done = false; notify = 0 }

abbrev last : Mailbox
last = record { blobs = (1 ∷ []) ∷ (2 ∷ []) ∷ []; done = true; notify = 0 }

first-IsBefore : IsBefore last first
first-IsBefore = record { more = (2 ∷ []) ∷ []; grows = refl; frozen = λ d. cc }

-- The first two fetches find one blob.
abbrev early : Answers
early = answer first ∷ answer first ∷ []

receive_all-delivers_example :
    let calls = suc (length last.blobs) in
    let s = open_session "http://host/" "r" offerer in
    (receive_all wasmtime_next calls (early ++ copies last calls) s ≡ some last.blobs)
    × (receive_all wasip3_next calls (early ++ copies last calls) s ≡ some last.blobs)
receive_all-delivers_example =
    receive_all-delivers last early "http://host/" "r" offerer refl (omega arith)
      ((first, first-IsBefore, refl), ((first, first-IsBefore, refl), tt))

abbrev asked_run : PeerRun
asked_run = record {
  test_id = "ordering";
  role = "answerer";
  signaling_url = "http://10.79.3.2:8080";
  room = "r-1";
  count = 20;
  size = 65536;
  bind_addr = "10.79.2.2";
  ice = none;
  disable_mdns = false;
}

parse_args-shared_example :
    parse_args (shared_peer_args asked_run) ≡ ok ("ordering", asked asked_run PeerRole.answerer)
unfolding role_as_str
parse_args-shared_example =
    parse_args-shared asked_run PeerRole.answerer refl (omega arith) (omega arith)
