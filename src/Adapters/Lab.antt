-- ===== src/Adapters/Lab.antt =====
-- The network lab, conformance/adapters/common/src/lab.rs, and its executor, bin/netns.rs. The
-- commands it runs are logged with their arguments; whether each succeeds is given as a list.
pub mod Scenarios
pub mod Provisioning
use Prim.Native.String.{◌++◌ as ◌<>◌}
use wasi_webrtc_datachannels.Base.{
  ℕ, ◌+◌, ◌%◌, ◌^◌, ◌≡◌, Bool, true, false, ◌&&◌, not, Option, none, some, String, List, [], ◌∷◌,
  ◌++◌, ◌==◌, string_eq, if◌then◌else◌,
}
use wasi_webrtc_datachannels.Base.Text.{decimal}
use wasi_webrtc_datachannels.Adapters.PeerCommand.{
  PeerRole, offerer, answerer, role_as_str, PeerIce, default_ice, PeerKind, PeerRun, PeerCommand,
  argv,
}

pub record LabTopology : Type 0 where
  pub offerer_ns : String
  pub answerer_ns : String
  pub signaling_ns : String
  pub router_ns : String
  pub offerer_addr : String
  pub offerer_gw : String
  pub answerer_addr : String
  pub answerer_gw : String
  pub signaling_addr : String
  pub signaling_gw : String
  pub offerer_subnet : String
  pub answerer_subnet : String
  pub signaling_subnet : String
  pub offerer_public : String
  pub answerer_public : String
  pub signaling_port : ℕ
  pub turn_port : ℕ
  pub turn_min_port : ℕ
  pub turn_max_port : ℕ
  pub turn_user : String
  pub turn_pass : String
  pub turn_realm : String
  pub run_dir : String

abbrev pub default_topology : LabTopology
default_topology = record {
  offerer_ns = "cw-off";
  answerer_ns = "cw-ans";
  signaling_ns = "cw-sig";
  router_ns = "cw-rtr";
  offerer_addr = "10.79.1.2";
  offerer_gw = "10.79.1.1";
  answerer_addr = "10.79.2.2";
  answerer_gw = "10.79.2.1";
  signaling_addr = "10.79.3.2";
  signaling_gw = "10.79.3.1";
  offerer_subnet = "10.79.1.0/30";
  answerer_subnet = "10.79.2.0/30";
  signaling_subnet = "10.79.3.0/30";
  offerer_public = "10.79.11.1";
  answerer_public = "10.79.12.1";
  signaling_port = 8080;
  turn_port = 3478;
  turn_min_port = 49160;
  turn_max_port = 49200;
  turn_user = "conf";
  turn_pass = "conf";
  turn_realm = "conformance";
  run_dir = "/tmp/conformance-netns";
}

unfoldable pub bind_addr : LabTopology → PeerRole → String
bind_addr t offerer = t.offerer_addr
bind_addr t answerer = t.answerer_addr

unfoldable pub peer_ns : LabTopology → PeerRole → String
peer_ns t offerer = t.offerer_ns
peer_ns t answerer = t.answerer_ns

unfoldable pub turn_server_addr : LabTopology → String
turn_server_addr t = t.signaling_addr <> ":" <> decimal t.turn_port

pub data Scenario : Type 0 where
  lan stun_srflx turn_relay nat_symmetric : Scenario

unfoldable pub scenario_as_str : Scenario → String
scenario_as_str lan = "lan"
scenario_as_str stun_srflx = "stun-srflx"
scenario_as_str turn_relay = "turn-relay"
scenario_as_str nat_symmetric = "nat-symmetric"

unfoldable pub parse : String → Option Scenario
parse s =
    if s == "lan"
    then some lan
    else if s == "stun-srflx"
    then some stun_srflx
    else if s == "turn-relay"
    then some turn_relay
    else if s == "nat-symmetric"
    then some nat_symmetric
    else none

unfoldable pub is_lan : Scenario → Bool
is_lan lan = true
is_lan stun_srflx = false
is_lan turn_relay = false
is_lan nat_symmetric = false

unfoldable pub needs_coturn : Scenario → Bool
unfolding is_lan
needs_coturn s = not (is_lan s)

abbrev turn_server : LabTopology → Bool → PeerIce
turn_server t relay_only = record {
  server_url = some ("turn:" <> turn_server_addr t <> "?transport=udp");
  username = t.turn_user;
  credential = t.turn_pass;
  relay_only = relay_only;
}

unfoldable pub ice : Scenario → LabTopology → PeerIce
ice lan t = default_ice
ice stun_srflx t = record default_ice { server_url = some ("stun:" <> turn_server_addr t) }
ice turn_relay t = turn_server t true
ice nat_symmetric t = turn_server t false

-- The check at the start of the executor.
abbrev is_wasip3 : PeerKind → Bool
is_wasip3 PeerKind.wasip3_guest = true
is_wasip3 PeerKind.wasmtime = false

unfoldable pub supported : PeerKind → Scenario → Bool
supported kind s = not (is_wasip3 kind && not (is_lan s))

-- The port of the attempt's own signaling server, a `u16`.
unfoldable pub attempt_port : LabTopology → ℕ → ℕ
attempt_port t n = (t.signaling_port + n % 2 ^ 16) % 2 ^ 16

-- `run_peer` of the executor, up to the start of the process: the namespace is entered by `ip`.
unfoldable pub peer_process :
    Scenario
    → LabTopology
    → PeerCommand
    → String
    → String
    → String
    → PeerRole
    → ℕ
    → ℕ
    → Option (List String)
unfolding argv ice bind_addr peer_ns role_as_str
peer_process scenario t command signaling_url test_id room role count size =
    in_namespace (peer_ns t role) (
      argv command (record {
        test_id = test_id;
        role = role_as_str role;
        signaling_url = signaling_url;
        room = room;
        count = count;
        size = size;
        bind_addr = bind_addr t role;
        ice = some (ice scenario t);
        disable_mdns = false;
      }))
  where
    in_namespace : String → Option (List String) → Option (List String)
    in_namespace ns none = none
    in_namespace ns (some args) = some ("ip" ∷ "netns" ∷ "exec" ∷ ns ∷ args)
