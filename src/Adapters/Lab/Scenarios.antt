-- ===== src/Adapters/Lab/Scenarios.antt =====
-- The scenarios of the lab, and which peers run in them.
use wasi_webrtc_datachannels.Base.{ℕ, ◌≡◌, ◌↔◌, refl, ap, ◌∙◌, not, some, String, string_eq, arith}
use wasi_webrtc_datachannels.Adapters.PeerCommand.{
  PeerRole, PeerCommand, kind_of, is_default, is_none,
}
use wasi_webrtc_datachannels.Adapters.Lab.{
  LabTopology, Scenario, lan, stun_srflx, turn_relay, nat_symmetric, scenario_as_str, parse,
  needs_coturn, is_lan, ice, supported, peer_process,
}

parse-as_str : (x : Scenario) → parse (scenario_as_str x) ≡ some x
unfolding parse scenario_as_str
parse-as_str lan = refl
parse-as_str stun_srflx = refl
parse-as_str turn_relay = refl
parse-as_str nat_symmetric = refl

as_str-parse : (s : String) (x : Scenario) → parse s ≡ some x → s ≡ scenario_as_str x
unfolding parse scenario_as_str
as_str-parse s x h = ground (
  arith,
  string_eq.eq_iff s "lan",
  string_eq.eq_iff s "stun-srflx",
  string_eq.eq_iff s "turn-relay",
  string_eq.eq_iff s "nat-symmetric",
)

-- The ids of the scenarios read back as the scenarios, and no other text is accepted.
pub parse_iff : (s : String) (x : Scenario) → (parse s ≡ some x) ↔ (s ≡ scenario_as_str x)
parse_iff s x = (as_str-parse s x, λ e. ap parse e ∙ parse-as_str x)

-- The lab asks for a server in just the scenarios in which it starts one.
ice-needs_coturn : (x : Scenario) (t : LabTopology) → is_default (ice x t) ≡ not (needs_coturn x)
unfolding ice needs_coturn is_default
ice-needs_coturn lan t = refl
ice-needs_coturn stun_srflx t = refl
ice-needs_coturn turn_relay t = refl
ice-needs_coturn nat_symmetric t = refl

-- The check that the executor makes before it provisions the lab refuses a kind of peer in a scenario
-- exactly if the command of every peer of that kind would be refused there: the kinds that have no
-- STUN or TURN run in just the scenario that has no server.
pub supported-process :
    (x : Scenario) (t : LabTopology) (command : PeerCommand) (url test room : String)
    (role : PeerRole) (count size : ℕ)
    → is_none (peer_process x t command url test room role count size)
      ≡ not (supported (kind_of command) x)
unfolding peer_process supported is_lan
supported-process x t (PeerCommand.wasmtime b g) url test room role count size = refl
supported-process lan t (PeerCommand.wasip3_guest b c) url test room role count size = refl
supported-process stun_srflx t (PeerCommand.wasip3_guest b c) url test room role count size = refl
supported-process turn_relay t (PeerCommand.wasip3_guest b c) url test room role count size = refl
supported-process nat_symmetric t (PeerCommand.wasip3_guest b c) url test room role count size =
    refl
