-- ===== src/Suite/Handshake/Signaling.antt =====
-- The two handshakes of conformance/guest/src/lib.rs, each receiving what the other posts.
use wasi_webrtc_datachannels.Base.{◌≡◌, Option, none, some, String, List, [], ◌∷◌, ◌++◌, map}
use wasi_webrtc_datachannels.Guest.Provider.{Result}
use wasi_webrtc_datachannels.Suite.Calls.{ok}
use wasi_webrtc_datachannels.Suite.Handshake.{
  SdpType, SessionDescription, IceCandidate, Signal, candidate, end_of_candidates, channel_options,
  PeerApi, World, Codec, collect_candidates,
}

-- The candidates are added one after the other, each with success.
abbrev pub Adds :
    {Peer Channel : Type 0} → PeerApi Peer Channel → List IceCandidate → Peer → Peer → Type 0
Adds api [] p q = p ≡ q
Adds {Peer = Peer} api (c ∷ cs) p q =
    (r : Peer) × (api.add_ice_candidate c p ≡ (Result.ok tt, r)) × Adds api cs r q

-- The calls of the connection that an offerer makes, from the state `p` to the state `q`, all of which
-- succeed: it gets the channel `dc`, offers `description`, gathers the candidates `mine`, and takes
-- the answer `sdp` and the candidates `theirs`.
pub record IsOfferer {Peer Channel : Type 0} (api : PeerApi Peer Channel) (test_id : String)
    (p q : Peer) (dc : Channel) (description : SessionDescription) (mine : List IceCandidate)
    (sdp : String) (theirs : List IceCandidate) : Type 0 where
  pub made : Peer
  pub offered : Peer
  pub described : Peer
  pub answered : Peer
  pub added : Peer
  pub creates : api.create_data_channel (channel_options test_id) p ≡ (Result.ok dc, made)
  pub offers : api.create_offer made ≡ (Result.ok description, offered)
  pub describes : api.set_local_description description offered ≡ (Result.ok tt, described)
  pub gathers : collect_candidates (api.local_ice_candidates described) [] ≡ some mine
  pub hears :
      api.set_remote_description (record { kind = SdpType.answer; sdp = sdp }) described
      ≡ (Result.ok tt, answered)
  pub adds : Adds api theirs answered added
  pub waits : api.wait_connected added ≡ (Result.ok tt, q)

-- The calls of an answerer likewise: it takes the offer `sdp`, answers `description`, gathers `mine`,
-- takes `theirs`, and its first incoming channel is `dc`.
pub record IsAnswerer {Peer Channel : Type 0} (api : PeerApi Peer Channel) (p q : Peer)
    (dc : Channel) (description : SessionDescription) (mine : List IceCandidate) (sdp : String)
    (theirs : List IceCandidate) : Type 0 where
  pub offered : Peer
  pub answered : Peer
  pub described : Peer
  pub added : Peer
  pub others : List Channel
  pub hears :
      api.set_remote_description (record { kind = SdpType.offer; sdp = sdp }) p
      ≡ (Result.ok tt, offered)
  pub answers : api.create_answer offered ≡ (Result.ok description, answered)
  pub describes : api.set_local_description description answered ≡ (Result.ok tt, described)
  pub gathers : collect_candidates (api.local_ice_candidates described) [] ≡ some mine
  pub adds : Adds api theirs described added
  pub waits : api.wait_connected added ≡ (Result.ok tt, q)
  pub incoming : api.incoming_data_channels q ≡ dc ∷ others

module _ {Blob : Type 0} (codec : Codec Blob) where
  -- A mailbox that holds a description, the candidates, the end of the candidates and its own end.
  abbrev candidates_of : List IceCandidate → List (Option Blob)
  candidates_of cs = map (λ c. some (codec.to_vec (candidate c))) cs

  abbrev after : List IceCandidate → List (Option Blob)
  after cs = candidates_of cs ++ some (codec.to_vec end_of_candidates) ∷ none ∷ []

  abbrev pub script : Signal → List IceCandidate → List (Option Blob)
  script description cs = some (codec.to_vec description) ∷ after cs

  -- A session whose other side has posted `theirs`, and whose own calls of the mailbox succeed for a
  -- description, the candidates `mine`, their end and the end of the mailbox.
  abbrev oks : List IceCandidate → List (Result (Unit {0})) → List (Result (Unit {0}))
  oks xs rest = map (λ x. Result.ok tt) xs ++ rest

  abbrev pub session :
      {Peer : Type 0} → Peer → List IceCandidate → List (Option Blob) → World Peer Blob
  session p mine theirs = record {
    peer = p;
    recvs = map Result.ok theirs;
    puts = Result.ok tt ∷ oks mine (Result.ok tt ∷ Result.ok tt ∷ []);
    posted = [];
  }

  -- All was received, all was posted.
  abbrev pub over : {Peer : Type 0} → Peer → List (Option Blob) → World Peer Blob
  over p posted = record { peer = p; recvs = []; puts = []; posted = posted }
