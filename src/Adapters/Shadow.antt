-- ===== src/Adapters/Shadow.antt =====
-- The simulated executor, conformance/adapters/common/src/bin/shadow.rs: where the hosts of each test
-- stand, the configuration of the simulator, and the result of a test. A quoted scalar is a parameter.
pub mod Rendering
use Prim.Native.String.{◌++◌ as ◌<>◌}
use wasi_webrtc_datachannels.Base.{
  ℕ, suc, ◌+◌, Bool, true, false, Option, none, some, String, List, [], ◌∷◌, ◌++◌, map, filter,
}
use wasi_webrtc_datachannels.Base.Text.{decimal}
use wasi_webrtc_datachannels.Runner.Plan.{RawResult}
use wasi_webrtc_datachannels.Adapters.PeerCommand.{
  PeerRole, offerer, answerer, role_as_str, PeerRun, PeerCommand, argv,
}
use wasi_webrtc_datachannels.Adapters.Outcome.{
  TestOutcome, fail, fold_two, Instance, ok, err, outcome_to_raw, params_for, selected,
  two_peer_tests,
}

pub record Placement : Type 0 where
  pub test_id : String
  pub index : ℕ
  pub signaling_ip : String
  pub offerer_ip : String
  pub answerer_ip : String
  pub count : ℕ
  pub size : ℕ

abbrev pub host_ip : ℕ → String → String
host_ip index host = "11.0." <> decimal index <> "." <> host

unfoldable pub new_placement : String → ℕ → Placement
unfolding params_for
new_placement test_id index = record {
  test_id = test_id;
  index = index;
  signaling_ip = host_ip index "1";
  offerer_ip = host_ip index "2";
  answerer_ip = host_ip index "3";
  count = (params_for test_id).0;
  size = (params_for test_id).1;
}

unfoldable pub place_from : ℕ → List String → List Placement
unfolding new_placement
place_from index [] = []
place_from index (t ∷ ts) = new_placement t index ∷ place_from (suc index) ts

unfoldable pub placements : List String → List Placement
unfolding place_from
placements only = place_from 0 (filter (selected only) two_peer_tests)

abbrev pub signaling_url : Placement → ℕ → String
signaling_url p port = "http://" <> p.signaling_ip <> ":" <> decimal port

abbrev join : List String → String
join [] = ""
join (s ∷ []) = s
join (s ∷ t ∷ rest) = s <> ", " <> join (t ∷ rest)

abbrev expected_line : Option String → String
expected_line none = ""
expected_line (some state) = "      expected_final_state: " <> state <> "\n"

-- The process is never empty: its first argument is its path.
unfoldable pub emit_host : String → String → String → List String → String → Option String → String
emit_host name ip path args start_time expected =
    "  "
    <> name
    <> ":\n    ip_addr: "
    <> ip
    <> "\n    network_node_id: 0\n    processes:\n    - path: "
    <> path
    <> "\n      args: ["
    <> join args
    <> "]\n      start_time: "
    <> start_time
    <> "\n"
    <> expected_line expected

module _ (json_str : String → String) where
  abbrev emit_peer : String → String → Option (List String) → Option String
  emit_peer name ip none = none
  emit_peer name ip (some []) = none
  emit_peer name ip (some (path ∷ args)) =
      some (emit_host name ip (json_str path) (map json_str args) "2s" none)

  -- The run of one peer of a placement.
  unfoldable pub peer_run : Placement → ℕ → PeerRole → String → PeerRun
  unfolding role_as_str
  peer_run p port role ip = record {
    test_id = p.test_id;
    role = role_as_str role;
    signaling_url = signaling_url p port;
    room = "r";
    count = p.count;
    size = p.size;
    bind_addr = ip;
    ice = none;
    disable_mdns = true;
  }

  abbrev followed : Option String → Option String → Option String
  followed none rest = none
  followed (some s) none = none
  followed (some s) (some t) = some (s <> t)

  unfoldable pub emit_placement : PeerCommand → String → ℕ → Placement → Option String
  unfolding argv peer_run emit_host
  emit_placement command signaling_bin port p =
      followed
        (some (
          emit_host ("sig" <> decimal p.index) p.signaling_ip (json_str signaling_bin)
            (json_str "--host"
              ∷ json_str p.signaling_ip
              ∷ json_str "--port"
              ∷ json_str (decimal port)
              ∷ [])
            "0s" (some "running")))
        (followed
          (emit_peer ("offerer" <> decimal p.index) p.offerer_ip
            (argv command (peer_run p port offerer p.offerer_ip)))
          (emit_peer ("answerer" <> decimal p.index) p.answerer_ip
            (argv command (peer_run p port answerer p.answerer_ip))))

  unfoldable pub emit_all : PeerCommand → String → ℕ → List Placement → Option String
  unfolding emit_placement
  emit_all command signaling_bin port [] = some ""
  emit_all command signaling_bin port (p ∷ ps) =
      followed (emit_placement command signaling_bin port p)
        (emit_all command signaling_bin port ps)

  unfoldable pub render_config : String → PeerCommand → String → ℕ → List Placement → Option String
  unfolding emit_all
  render_config stop_time command signaling_bin port ps =
      followed
        (some (
          "general:\n  stop_time: " <> stop_time <> "\n  model_unblocked_syscall_latency: true\n"
          <> "network:\n  graph:\n    type: 1_gbit_switch\nhosts:\n"))
        (emit_all command signaling_bin port ps)

abbrev missing : String → TestOutcome
missing e = fail ("shadow: missing peer result: " <> e)

-- The two outcomes, or what kept them from being read; the offerer's error comes first.
abbrev folded : Instance → Instance → TestOutcome
folded (ok o) (ok a) = fold_two o a
folded (err e) a = missing e
folded (ok o) (err e) = missing e

unfoldable pub collect_result : Placement → Instance → Instance → RawResult
unfolding fold_two outcome_to_raw
collect_result p offered answered = outcome_to_raw p.test_id (folded offered answered)
