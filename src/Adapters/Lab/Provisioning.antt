-- ===== src/Adapters/Lab/Provisioning.antt =====
-- The provisioning commands of the lab, conformance/adapters/common/src/lab.rs.
pub mod Runs
use Prim.Native.String.{◌++◌ as ◌<>◌}
use wasi_webrtc_datachannels.Base.{
  ℕ, suc, ◌&&◌, not, ◌≡◌, Bool, true, false, Option, none, some, String, List, [], ◌∷◌, ◌++◌, map,
  if◌then◌else◌,
}
use wasi_webrtc_datachannels.Base.Text.{decimal}
use wasi_webrtc_datachannels.Adapters.Lab.{
  LabTopology, Scenario, lan, stun_srflx, turn_relay, nat_symmetric, needs_coturn,
}

-- A command with its arguments, and what is fed to it.
pub record Command : Type 0 where
  pub words : List String
  pub input : Option String

-- `run` fails if the command fails; `run_ignore` goes on; the other steps touch files.
pub data Step : Type 0 where
  run : Command → Step
  run_ignore : Command → Step
  write_file : String → String → Step

module _ (is_root : Bool) where
  unfoldable pub priv_command : List String → Command
  priv_command words = record { words = if is_root then words else "sudo" ∷ words; input = none }

  unfoldable pub ns_command : String → List String → Command
  unfolding priv_command
  ns_command ns words = priv_command ("ip" ∷ "netns" ∷ "exec" ∷ ns ∷ words)

  unfoldable pub netns_down : LabTopology → List Step
  netns_down t =
      map (λ ns. run_ignore (priv_command ("ip" ∷ "netns" ∷ "del" ∷ ns ∷ [])))
        (t.offerer_ns ∷ t.answerer_ns ∷ t.signaling_ns ∷ t.router_ns ∷ [])

  unfoldable pub link : LabTopology → String → String → String → String → String → List Step
  link t ns veth_ep veth_rtr ep_addr gw_addr = map run (
      priv_command
        ("ip" ∷ "link" ∷ "add" ∷ veth_ep ∷ "type" ∷ "veth" ∷ "peer" ∷ "name" ∷ veth_rtr ∷ [])
      ∷ priv_command ("ip" ∷ "link" ∷ "set" ∷ veth_ep ∷ "netns" ∷ ns ∷ [])
      ∷ priv_command ("ip" ∷ "link" ∷ "set" ∷ veth_rtr ∷ "netns" ∷ t.router_ns ∷ [])
      ∷ ns_command ns ("ip" ∷ "addr" ∷ "add" ∷ (ep_addr <> "/30") ∷ "dev" ∷ veth_ep ∷ [])
      ∷ ns_command ns ("ip" ∷ "link" ∷ "set" ∷ veth_ep ∷ "up" ∷ [])
      ∷ ns_command ns ("ip" ∷ "link" ∷ "set" ∷ "lo" ∷ "up" ∷ [])
      ∷ ns_command ns ("ip" ∷ "route" ∷ "add" ∷ "default" ∷ "via" ∷ gw_addr ∷ [])
      ∷ ns_command t.router_ns ("ip" ∷ "addr" ∷ "add" ∷ (gw_addr <> "/30") ∷ "dev" ∷ veth_rtr ∷ [])
      ∷ ns_command t.router_ns ("ip" ∷ "link" ∷ "set" ∷ veth_rtr ∷ "up" ∷ [])
      ∷ [])

  unfoldable pub netns_up : LabTopology → List Step
  unfolding netns_down link
  netns_up t =
      netns_down t
      ++ (map (λ ns. run (priv_command ("ip" ∷ "netns" ∷ "add" ∷ ns ∷ [])))
            (t.router_ns ∷ t.offerer_ns ∷ t.answerer_ns ∷ t.signaling_ns ∷ [])
          ++ (run (ns_command t.router_ns ("ip" ∷ "link" ∷ "set" ∷ "lo" ∷ "up" ∷ []))
              ∷ run (ns_command t.router_ns ("sysctl" ∷ "-q" ∷ "-w" ∷ "net.ipv4.ip_forward=1" ∷ []))
              ∷ (link t t.offerer_ns "veth-off" "veth-roff" t.offerer_addr t.offerer_gw
                  ++ (link t t.answerer_ns "veth-ans" "veth-rans" t.answerer_addr t.answerer_gw
                      ++ link t t.signaling_ns "veth-sig" "veth-rsig" t.signaling_addr
                          t.signaling_gw))))

  unfoldable pub nftables_clear : LabTopology → List Step
  nftables_clear t =
      run_ignore (ns_command t.router_ns ("nft" ∷ "delete" ∷ "table" ∷ "inet" ∷ "cw_ice" ∷ [])) ∷ []

  abbrev snat_chain : LabTopology → Option String → String
  snat_chain t none = ""
  snat_chain t (some mode) =
      "    chain postrouting {\n"
      <> "        type nat hook postrouting priority srcnat; policy accept;\n"
      <> "        ip saddr " <> t.offerer_subnet <> " snat ip to " <> t.offerer_public <> " "
      <> mode <> "\n" <> "        ip saddr " <> t.answerer_subnet <> " snat ip to "
      <> t.answerer_public <> " " <> mode <> "\n" <> "    }\n"

  abbrev dnat_chain : LabTopology → String
  dnat_chain t =
      "    chain prerouting {\n"
      <> "        type nat hook prerouting priority dstnat; policy accept;\n" <> "        ip daddr "
      <> t.offerer_public <> " dnat ip to " <> t.offerer_addr <> "\n" <> "        ip daddr "
      <> t.answerer_public <> " dnat ip to " <> t.answerer_addr <> "\n" <> "    }\n"

  unfoldable pub nft_table : LabTopology → Option String → Bool → String
  nft_table t snat_mode one_to_one =
      "table inet cw_ice {\n"
      <> "    chain forward {\n"
      <> "        type filter hook forward priority 0; policy accept;\n"
      <> (if one_to_one then "        ct status dnat accept\n" else "")
      <> "        ip saddr "
      <> t.offerer_subnet
      <> " ip daddr "
      <> t.answerer_subnet
      <> " drop\n"
      <> "        ip saddr "
      <> t.answerer_subnet
      <> " ip daddr "
      <> t.offerer_subnet
      <> " drop\n"
      <> "    }\n"
      <> snat_chain t snat_mode
      <> (if one_to_one then dnat_chain t else "")
      <> "}\n"

  unfoldable pub nft_load : LabTopology → String → List Step
  nft_load t rules =
      run (record (ns_command t.router_ns ("nft" ∷ "-f" ∷ "-" ∷ [])) { input = some rules }) ∷ []

  abbrev policy : LabTopology → Scenario → List Step
  policy t lan = []
  policy t turn_relay = nft_load t (nft_table t none false)
  policy t stun_srflx = nft_load t (nft_table t (some "persistent") true)
  policy t nat_symmetric = nft_load t (nft_table t (some "random") false)

  unfoldable pub nftables_apply : LabTopology → Scenario → List Step
  unfolding nftables_clear nft_load nft_table
  nftables_apply t s = nftables_clear t ++ policy t s

  abbrev pub turn_conf : LabTopology → String
  turn_conf t = t.run_dir <> "/turnserver.conf"

  abbrev pub turn_pidfile : LabTopology → String
  turn_pidfile t = t.run_dir <> "/turnserver.pid"

  abbrev kill : Option String → List Step
  kill none = []
  kill (some pid) = run_ignore (priv_command ("kill" ∷ pid ∷ [])) ∷ []

  -- `pid` is what the pid file holds, trimmed, if it can be read and is not empty.
  unfoldable pub coturn_down : LabTopology → Option String → List Step
  coturn_down t pid =
      kill pid
      ++ (run_ignore (priv_command ("pkill" ∷ "-f" ∷ ("turnserver -c " <> turn_conf t) ∷ []))
          ∷ run_ignore (priv_command ("rm" ∷ "-f" ∷ turn_pidfile t ∷ []))
          ∷ [])

  unfoldable pub coturn_config : LabTopology → String
  coturn_config t =
      "listening-ip="
      <> t.signaling_addr
      <> "\nlistening-port="
      <> decimal t.turn_port
      <> "\nrelay-ip="
      <> t.signaling_addr
      <> "\nmin-port="
      <> decimal t.turn_min_port
      <> "\nmax-port="
      <> decimal t.turn_max_port
      <> "\nfingerprint\nlt-cred-mech\nrealm="
      <> t.turn_realm
      <> "\nuser="
      <> t.turn_user
      <> ":"
      <> t.turn_pass
      <> "\nno-tls\nno-dtls\nno-cli\npidfile="
      <> turn_pidfile t
      <> "\nlog-file="
      <> t.run_dir
      <> "/turnserver.log\nsimple-log\n"

  unfoldable pub coturn_up : LabTopology → Option String → List Step
  unfolding coturn_down coturn_config
  coturn_up t pid =
      coturn_down t pid
      ++ (write_file (turn_conf t) (coturn_config t)
          ∷ run (ns_command t.signaling_ns ("turnserver" ∷ "-c" ∷ turn_conf t ∷ "-o" ∷ []))
          ∷ [])

  unfoldable pub scenario_up : LabTopology → Option String → Scenario → List Step
  unfolding netns_up coturn_up nftables_apply
  scenario_up t pid s =
      netns_up t ++ ((if needs_coturn s then coturn_up t pid else []) ++ nftables_apply t s)

  unfoldable pub scenario_down : LabTopology → Option String → List Step
  unfolding nftables_clear coturn_down netns_down
  scenario_down t pid = nftables_clear t ++ (coturn_down t pid ++ netns_down t)

abbrev pub can_fail : Step → Bool
can_fail (run c) = true
can_fail (run_ignore c) = false
can_fail (write_file p b) = true

-- The steps that are tried, and whether all went well; the `n`th step succeeds if `works n` holds.
unfoldable pub run_all : (ℕ → Bool) → ℕ → List Step → Bool × List Step
run_all works n [] = (true, [])
run_all works n (s ∷ steps) =
    let rest : Bool × List Step = run_all works (suc n) steps in
    if can_fail s && not (works n) then (false, s ∷ []) else (rest.0, s ∷ rest.1)
