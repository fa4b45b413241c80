-- ===== src/Suite/Tests.antt =====
-- The theorems on conformance/guest/src/lib.rs at concrete tests.
use wasi_webrtc_datachannels.Base.{
  ℕ, ◌≡◌, ◌↔◌, ◌<◌, All, some, String, List, [], ◌∷◌, ◌++◌, length, true, string_eq, nat_eq, arith,
}
use wasi_webrtc_datachannels.Guest.Provider.{Result}
use wasi_webrtc_datachannels.Suite.Payload.Laws.{IsByte}
use wasi_webrtc_datachannels.Suite.Calls.{ok}
use wasi_webrtc_datachannels.Suite.Exchange.{TestConfig, verify_ordered}
use wasi_webrtc_datachannels.Suite.Exchange.Ordered.{IsSequence, verify_ordered_iff}
use wasi_webrtc_datachannels.Suite.Handshake.{
  SdpType, SessionDescription, IceCandidate, Signal, PeerApi, Codec,
}

abbrev two : TestConfig
two = record { message_count = 2; message_size = 4 }

abbrev swapped : List (List ℕ)
swapped = (1 ∷ 0 ∷ 0 ∷ 0 ∷ []) ∷ (0 ∷ 0 ∷ 0 ∷ 0 ∷ []) ∷ []

-- The bytes of a small number.
word : (b : ℕ) → b < 256 → All IsByte (b ∷ 0 ∷ 0 ∷ 0 ∷ [])
word b h = (h, (omega arith, (omega arith, (omega arith, tt))))

verify_ordered_iff_example :
    (verify_ordered swapped 2 ≡ ok tt) ↔ ((length swapped ≡ 2) × IsSequence 0 swapped)
verify_ordered_iff_example =
    verify_ordered_iff swapped 2 (word 1 (omega arith), (word 0 (omega arith), tt)) (omega arith)

-- A connection that is the log of what it was told, and has one candidate of its own.
abbrev host_candidate : IceCandidate
host_candidate = record { candidate = "candidate:1"; sdp_mid = some "0"; sdp_mline_index = some 0 }

abbrev logged : PeerApi (List String) (Unit {0})
logged = record {
  create_data_channel = λ options p. (Result.ok tt, p);
  create_offer = λ p. (Result.ok (record { kind = SdpType.offer; sdp = "v=0" }), p);
  create_answer = λ p. (Result.ok (record { kind = SdpType.answer; sdp = "v=1" }), p);
  set_local_description = λ d p. (Result.ok tt, p);
  set_remote_description = λ d p. (Result.ok tt, p ++ d.sdp ∷ []);
  add_ice_candidate = λ c p. (Result.ok tt, p ++ c.candidate ∷ []);
  wait_connected = λ p. (Result.ok tt, p);
  local_ice_candidates = λ p. (true, host_candidate ∷ []) ∷ [];
  incoming_data_channels = λ p. tt ∷ [];
}

-- Text is the signal itself.
abbrev plain : Codec Signal
plain = record { to_vec = λ s. s; from_slice = ok }

abbrev offered : SessionDescription
offered = record { kind = SdpType.offer; sdp = "v=0" }

abbrev answered : SessionDescription
answered = record { kind = SdpType.answer; sdp = "v=1" }
