-- ===== src/Adapters/Shadow/Rendering.antt =====
-- The configuration of conformance/adapters/common/src/bin/shadow.rs is always written: no peer of it
-- has a server that its kind would refuse.
use wasi_webrtc_datachannels.Base.{ℕ, ◌≡◌, refl, Option, none, some, String, List, [], ◌∷◌}
use wasi_webrtc_datachannels.Adapters.PeerCommand.{PeerRole, offerer, answerer, PeerCommand, argv}
use wasi_webrtc_datachannels.Adapters.Shadow.{
  Placement, emit_peer, followed, peer_run, emit_placement, emit_all, render_config,
}

module _ (json_str : String → String) (command : PeerCommand) (signaling_bin : String)
    (port : ℕ) where
  abbrev Written : Option String → Type 0
  Written o = (s : String) × (o ≡ some s)

  followed-Written : (a b : Option String) → Written a → Written b → Written (followed json_str a b)
  followed-Written none b p q = absurd cc
  followed-Written (some s) none p q = absurd cc
  followed-Written (some s) (some t) p q = (_, refl)

  peer-Written :
      (c : PeerCommand) (p : Placement) (role : PeerRole) (name ip : String)
      → Written (emit_peer json_str name ip (argv c (peer_run json_str p port role ip)))
  unfolding argv peer_run
  peer-Written (PeerCommand.wasmtime b g) p role name ip = (_, refl)
  peer-Written (PeerCommand.wasip3_guest b g) p role name ip = (_, refl)

  placement-Written :
      (p : Placement) → Written (emit_placement json_str command signaling_bin port p)
  unfolding emit_placement
  placement-Written p =
      followed-Written _ _ (_, refl)
        (followed-Written _ _ (peer-Written command p offerer _ _)
          (peer-Written command p answerer _ _))

  all-Written : (ps : List Placement) → Written (emit_all json_str command signaling_bin port ps)
  unfolding emit_all
  all-Written [] = (_, refl)
  all-Written (p ∷ ps) = followed-Written _ _ (placement-Written p) (all-Written ps)

  -- A configuration is written for every kind of peer and every placement.
  render_config-Written :
      (stop_time : String) (ps : List Placement)
      → Written (render_config json_str stop_time command signaling_bin port ps)
  unfolding render_config
  render_config-Written stop_time ps = followed-Written _ _ (_, refl) (all-Written ps)
