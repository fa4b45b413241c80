-- ===== src/Adapters/PeerCommand.antt =====
-- The peer processes of the environment executors, conformance/adapters/common/src/peer_command.rs.
-- Paths are texts, already absolute: resolving them asks the file system.
use Prim.Native.String.{◌++◌ as ◌<>◌}
use wasi_webrtc_datachannels.Base.{
  ℕ, Bool, true, false, ◌&&◌, not, Option, none, some, String, List, [], ◌∷◌, ◌++◌, if◌then◌else◌,
}
use wasi_webrtc_datachannels.Base.Text.{decimal}

pub data PeerRole : Type 0 where
  offerer answerer : PeerRole

unfoldable pub role_as_str : PeerRole → String
role_as_str offerer = "offerer"
role_as_str answerer = "answerer"

pub record PeerIce : Type 0 where
  pub server_url : Option String
  pub username : String
  pub credential : String
  pub relay_only : Bool

abbrev pub default_ice : PeerIce
default_ice = record { server_url = none; username = ""; credential = ""; relay_only = false }

abbrev pub is_none {ℓ} : {A : Type ℓ} → Option A → Bool
is_none none = true
is_none (some a) = false

unfoldable pub is_default : PeerIce → Bool
is_default ice = is_none ice.server_url && not ice.relay_only

pub data PeerKind : Type 0 where
  wasmtime wasip3_guest : PeerKind

unfoldable pub default_target : PeerKind → String
default_target wasmtime = "wasmtime"
default_target wasip3_guest = "wasip3-guest"

pub record PeerRun : Type 0 where
  pub test_id : String
  pub role : String
  pub signaling_url : String
  pub room : String
  pub count : ℕ
  pub size : ℕ
  pub bind_addr : String
  pub ice : Option PeerIce
  pub disable_mdns : Bool

pub data PeerCommand : Type 0 where
  wasmtime : String → String → PeerCommand
  wasip3_guest : String → String → PeerCommand

abbrev pub kind_of : PeerCommand → PeerKind
kind_of (PeerCommand.wasmtime b g) = PeerKind.wasmtime
kind_of (PeerCommand.wasip3_guest b c) = PeerKind.wasip3_guest

unfoldable pub shared_peer_args : PeerRun → List String
shared_peer_args run =
    "--test"
    ∷ run.test_id
    ∷ "--role"
    ∷ run.role
    ∷ "--server"
    ∷ run.signaling_url
    ∷ "--room"
    ∷ run.room
    ∷ "--message-count"
    ∷ decimal run.count
    ∷ "--message-size"
    ∷ decimal run.size
    ∷ []

abbrev server_args : PeerIce → Option String → List String
server_args ice none = []
server_args ice (some url) =
    "--ice-server-url" ∷ url ∷ "--ice-username" ∷ ice.username ∷ "--ice-credential" ∷ ice.credential
    ∷ []

unfoldable pub ice_args : Option PeerIce → List String
ice_args none = []
ice_args (some ice) =
    server_args ice ice.server_url ++ (if ice.relay_only then "--relay-only" ∷ [] else [])

abbrev refused : Option PeerIce → Bool
refused none = false
refused (some ice) = not (is_default ice)

-- `none` is the refusal of servers for the guest's own network stack.
unfoldable pub argv : PeerCommand → PeerRun → Option (List String)
unfolding is_default ice_args shared_peer_args
argv (PeerCommand.wasmtime peer_bin guest) run = some (
    peer_bin
    ∷ "--guest"
    ∷ guest
    ∷ (shared_peer_args run
        ++ ("--bind-addr"
            ∷ run.bind_addr
            ∷ (ice_args run.ice ++ (if run.disable_mdns then "--disable-mdns" ∷ [] else [])))))
argv (PeerCommand.wasip3_guest wasmtime_bin component) run =
    if refused run.ice
    then none
    else some (
        wasmtime_bin
        ∷ "run"
        ∷ "-W"
        ∷ "component-model-async=y"
        ∷ "-S"
        ∷ "cli"
        ∷ "-S"
        ∷ "p3"
        ∷ "-S"
        ∷ "http"
        ∷ "-S"
        ∷ "inherit-network"
        ∷ "--env"
        ∷ ("WEBRTC_UDP_BIND_ADDR=" <> run.bind_addr)
        ∷ component
        ∷ shared_peer_args run)
