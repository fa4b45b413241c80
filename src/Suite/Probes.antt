-- ===== src/Suite/Probes.antt =====
-- The in-process tests of conformance/guest/src/lib.rs: two connections of one implementation, each
-- with its end of a channel. The interface under test is a parameter, as in the handshake, and the
-- two ends are what the calls on them get.
pub mod Errors
use wasi_webrtc_datachannels.Base.{
  ℕ, zero, suc, ◌+◌, ◌≡◌, Bool, true, false, ◌&&◌, ◌||◌, not, Option, none, some, String, List, [],
  ◌∷◌, ◌++◌, length, ltb, ◌==◌, nat_eq, string_eq, if◌then◌else◌,
}
use Prim.Native.String.{◌++◌ as ◌<>◌}
use wasi_webrtc_datachannels.Base.Utf8.{is_utf8}
use wasi_webrtc_datachannels.Guest.Provider.{
  Error, timed_out, invalid_signaling, receive_buffer_overflow, Message, binary, string, Result,
}
use wasi_webrtc_datachannels.Suite.Payload.{max}
use wasi_webrtc_datachannels.Suite.Calls.{
  Detail, said, wrong_length, stream_ended, Checked, ok, err, describe, map_err, Calls, Run, Prog,
  bind, ◌>>=◌, ◌>>◌, return, call_send, call_receive, send, receive, both,
}
use wasi_webrtc_datachannels.Suite.Exchange.{
  channel_label, same, TestConfig, verify_all, send_sequence,
}
use wasi_webrtc_datachannels.Suite.Handshake.{
  SdpType, SessionDescription, IceCandidate, DataChannelOptions, Read, PeerApi, collect_candidates,
  first_incoming,
}

pub record Pair (Peer : Type 0) : Type 0 where
  pub offerer : Peer
  pub answerer : Peer

pub record Ends : Type 0 where
  pub offer_dc : Calls
  pub answer_dc : Calls

abbrev is_empty {ℓ} : {A : Type ℓ} → List A → Bool
is_empty [] = true
is_empty (x ∷ xs) = false

module _ {Peer : Type 0} (api : PeerApi Peer Calls) where
  abbrev M : Type 0 → Type 0
  M A = Run (Pair Peer) (Checked A)

  abbrev on_offerer : {A : Type 0} → String → (Peer → Result A × Peer) → M A
  on_offerer call f s = let (r, p) = f s.offerer in some (map_err call r, record s { offerer = p })

  abbrev on_answerer : {A : Type 0} → String → (Peer → Result A × Peer) → M A
  on_answerer call f s =
      let (r, p) = f s.answerer in some (map_err call r, record s { answerer = p })

  abbrev collected : {S : Type 0} → Option (List IceCandidate) → Run S (Checked (List IceCandidate))
  collected none s = none
  collected (some cs) s = some (ok cs, s)

  unfoldable pub add_to_offerer : List IceCandidate → M (Unit {0})
  add_to_offerer [] = return (ok tt)
  add_to_offerer (c ∷ cs) = do
    on_offerer "offerer add-ice-candidate" (api.add_ice_candidate c)
    add_to_offerer cs

  unfoldable pub add_to_answerer : List IceCandidate → M (Unit {0})
  add_to_answerer [] = return (ok tt)
  add_to_answerer (c ∷ cs) = do
    on_answerer "answerer add-ice-candidate" (api.add_ice_candidate c)
    add_to_answerer cs

  -- `join!` of the two waits; the offerer's error comes first.
  abbrev join_connected : M (Unit {0})
  join_connected s =
      let (r, p) = api.wait_connected s.offerer in
      let (r', q) = api.wait_connected s.answerer in
      some (
        both (map_err "offerer wait-connected" r, map_err "answerer wait-connected" r'),
        record { offerer = p; answerer = q },
      )

  abbrev require_candidates : String → List IceCandidate → List IceCandidate → Checked (Unit {0})
  require_candidates test_id offered answered =
      if test_id == "peer-local-ice-candidates" && (is_empty offered || is_empty answered)
      then err (said "no local ICE candidates were gathered")
      else ok tt

  abbrev paired : Calls → Calls → Ends
  paired a b = record { offer_dc = a; answer_dc = b }

  unfoldable pub inproc_connect : String → M Ends
  unfolding add_to_offerer add_to_answerer
  inproc_connect test_id = do
    offer_dc ←
        on_offerer "create-data-channel"
          (api.create_data_channel (record { label = channel_label; max_retransmits = none }))
    offer ← on_offerer "create-offer" api.create_offer
    on_offerer "offerer set-local" (api.set_local_description offer)
    on_answerer "answerer set-remote offer" (api.set_remote_description offer)
    answer ← on_answerer "create-answer" api.create_answer
    on_answerer "answerer set-local" (api.set_local_description answer)
    on_offerer "offerer set-remote answer" (api.set_remote_description answer)
    offered ← λ s. collected (collect_candidates (api.local_ice_candidates s.offerer) []) s
    answered ← λ s. collected (collect_candidates (api.local_ice_candidates s.answerer) []) s
    return (require_candidates test_id offered answered)
    add_to_offerer answered
    add_to_answerer offered
    join_connected
    answer_dc ← λ s. some (first_incoming (api.incoming_data_channels s.answerer), s)
    return (ok (paired offer_dc answer_dc))

  -- A fresh connection is given text that is no description.
  abbrev judge_invalid : Result (Unit {0}) → Checked (Unit {0})
  judge_invalid (Result.ok u) = err (said "malformed SDP was accepted")
  judge_invalid (Result.err (invalid_signaling text)) = ok tt
  judge_invalid (Result.err e) = err (said ("expected invalid-signaling, got " <> describe e))

  unfoldable pub invalid_sdp : Peer → Checked (Unit {0})
  invalid_sdp p =
      judge_invalid
        (api.set_remote_description (record { kind = SdpType.offer; sdp = "this is not valid sdp" })
          p).0

  abbrev judge_timed_out : Result (Unit {0}) → Checked (Unit {0})
  judge_timed_out (Result.ok u) = err (said "wait-connected resolved without a remote peer")
  judge_timed_out (Result.err timed_out) = ok tt
  judge_timed_out (Result.err e) = err (said ("expected timed-out, got " <> describe e))

  unfoldable pub error_timed_out : M (Unit {0})
  error_timed_out = do
    dc ←
        on_offerer "create-data-channel"
          (api.create_data_channel (record { label = channel_label; max_retransmits = none }))
    offer ← on_offerer "create-offer" api.create_offer
    on_offerer "set-local-description" (api.set_local_description offer)
    λ s.
        let (r, p) = api.wait_connected s.offerer in
        some (judge_timed_out r, record s { offerer = p })
