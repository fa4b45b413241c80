-- ===== src/Adapters/Interop.antt =====
-- The interop executor, conformance/adapters/wasmtime/src/bin/interop.rs: which implementation plays
-- which role, and how the two outcomes of a test are folded.
pub mod Folding
use wasi_webrtc_datachannels.Base.{
  ℕ, Bool, true, false, String, List, [], ◌∷◌, any, filter, map, ◌==◌, string_eq, if◌then◌else◌,
}
use Prim.Native.String.{◌++◌ as ◌<>◌}
use wasi_webrtc_datachannels.Base.Text.{decimal}
use wasi_webrtc_datachannels.Runner.Plan.{RawResult, AdapterReport}
use wasi_webrtc_datachannels.Adapters.Driver.{Role, offerer, answerer, both}
use wasi_webrtc_datachannels.Adapters.Outcome.{
  TestOutcome, fold_two, Attempted, returned, failed, Instance, ok, err, joined, run_test, selected,
  run_corpus, two_peer_tests,
}

pub data PeerKind : Type 0 where
  jco_node jco_browser wasip3 : PeerKind

pub record Direction : Type 0 where
  pub target : String
  pub peer : PeerKind
  pub wasmtime_role : Role

unfoldable pub peer_role : Role → String
peer_role offerer = "answerer"
peer_role both = "answerer"
peer_role answerer = "offerer"

unfoldable pub fold_pair : Role → TestOutcome → TestOutcome → TestOutcome
unfolding fold_two
fold_pair answerer wasmtime peer = fold_two peer wasmtime
fold_pair r wasmtime peer = fold_two wasmtime peer

abbrev direction : String → PeerKind → Role → Direction
direction target peer role = record { target = target; peer = peer; wasmtime_role = role }

unfoldable pub directions : List Direction
directions =
    direction "wasmtime-x-jco-node" jco_node offerer
    ∷ direction "jco-node-x-wasmtime" jco_node answerer
    ∷ direction "wasmtime-x-jco-browser" jco_browser offerer
    ∷ direction "jco-browser-x-wasmtime" jco_browser answerer
    ∷ direction "wasmtime-x-wasip3-guest" wasip3 offerer
    ∷ direction "wasip3-guest-x-wasmtime" wasip3 answerer
    ∷ []

-- The arguments of the node process that plays the other peer.
abbrev shared_args : String → String → String → String → ℕ → ℕ → List String
shared_args base_url test_id room role count size =
    "--interop"
    ∷ "--server"
    ∷ base_url
    ∷ "--test"
    ∷ test_id
    ∷ "--room"
    ∷ room
    ∷ "--role"
    ∷ role
    ∷ "--message-count"
    ∷ decimal count
    ∷ "--message-size"
    ∷ decimal size
    ∷ []

unfoldable pub jco_peer_args : String → String → String → String → String → ℕ → ℕ → List String
jco_peer_args script base_url test_id room role count size =
    "--experimental-wasm-jspi" ∷ script ∷ shared_args base_url test_id room role count size

unfoldable pub jco_browser_peer_args :
    String → String → String → String → String → ℕ → ℕ → List String
jco_browser_peer_args script base_url test_id room role count size =
    script ∷ shared_args base_url test_id room role count size

-- One attempt: the results of the two joined peers, the error of the Wasmtime peer first.
unfoldable pub joined_pair : Role → Instance → Instance → Attempted
unfolding fold_pair
joined_pair role (ok wasmtime) (ok peer) = returned (fold_pair role wasmtime peer)
joined_pair role (ok wasmtime) (err e) = failed ("interop peer: " <> e)
joined_pair role (err e) peer = failed ("wasmtime peer: " <> e)

-- The reports, for the pairs that are asked for; the two peers of a test are parameters.
unfoldable pub interop_reports :
    List String
    → List String
    → String
    → (Direction → String → Instance × Instance)
    → List AdapterReport
unfolding directions
interop_reports pairs only environment peers =
    map
      (λ d. record {
        target = d.target;
        environment = environment;
        results =
            run_corpus two_peer_tests only
              (λ t. run_test t (joined_pair d.wasmtime_role (peers d t).0 (peers d t).1));
      })
      (filter (λ d. selected pairs d.target) directions)
