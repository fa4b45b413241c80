-- ===== src/Guest/Connection/Once.antt =====
-- What a peer-connection of the guest does once, over any sequence of its calls.
use wasi_webrtc_datachannels.Base.{
  ℕ, ◌≡◌, refl, ap, Bool, true, false, not, ◌||◌, ◌&&◌, any, ◌∙◌, Option, none, some, String, List,
  [], ◌∷◌, if◌then◌else◌,
}
use wasi_webrtc_datachannels.Guest.State.{Shared}
use wasi_webrtc_datachannels.Guest.Connection.{
  DcConfig, SdpType, offer, answer, pranswer, rollback, Called, done, failed, SignalingCore,
  PeerState, new_connection, ensure_pump, local_ice_candidates, set_local_description,
  close_connection, channel_made, described, signaled, remote_of, create_data_channel, create_offer,
  create_answer, set_remote_description, add_ice_candidate, wait_connected,
}
use wasi_webrtc_datachannels.Guest.Connection.Acts.{
  Act, creating, offering, answering, setting_local, setting_remote, taking, adding, closing,
  waiting, sharing, starts, takes, act, run,
}
use wasi_webrtc_datachannels.Guest.Connection.Flags.{
  Flags, ensure, live, dead, candidate_of, yields, next_flags, next-live, next-dead, or_assoc,
  yields-append, yields-dead,
}

module _ {Peer : Type 0} where
  abbrev flags : PeerState Peer → Flags
  flags s = record {
    candidate = s.local_candidate;
    taken = s.candidate_taken;
    started = s.started_pump;
    runtime = s.runtime;
    pumps = s.pumps;
  }

  abbrev state : Flags → Shared Peer → Option ℕ → ℕ → ℕ → PeerState Peer
  state f shared channel waker nudges = record {
    shared = shared;
    local_candidate = f.candidate;
    local_channel = channel;
    candidate_taken = f.taken;
    started_pump = f.started;
    runtime = f.runtime;
    pumps = f.pumps;
    waker = waker;
    nudges = nudges;
  }

  abbrev next : Act Peer → Flags → Flags
  next a f = next_flags (starts a) (takes a) f

  flags-ensure :
      (c : String) (t b r : Bool) (n : ℕ) (h : Shared Peer) (o : Option ℕ) (w k : ℕ)
      → let f : Flags = record { candidate = c; taken = t; started = b; runtime = r; pumps = n } in
        flags (ensure_pump (state f h o w k)) ≡ ensure f
  unfolding ensure_pump
  flags-ensure c t true r n h o w k = refl
  flags-ensure c t false true n h o w k = refl
  flags-ensure c t false false n h o w k = refl

  taken-local :
      (c : String) (t b r : Bool) (n : ℕ) (h : Shared Peer) (o : Option ℕ) (w k : ℕ)
      → let f : Flags = record { candidate = c; taken = t; started = b; runtime = r; pumps = n } in
        (((local_ice_candidates (state f h o w k)).0 ≡ yields true f)
          × (flags (local_ice_candidates (state f h o w k)).1 ≡ record f { taken = true }))
  unfolding local_ice_candidates
  taken-local c true b r n h o w k = (refl, refl)
  taken-local c false b r n h o w k = (refl, refl)

  ensured : (s : PeerState Peer) → flags (ensure_pump s) ≡ ensure (flags s)
  ensured s =
      flags-ensure s.local_candidate s.candidate_taken s.started_pump s.runtime s.pumps s.shared
        s.local_channel s.waker s.nudges

  module _ (core : SignalingCore Peer) where
    made-flags :
        (c : DcConfig) (s : PeerState Peer) (r : Called ℕ × Peer)
        → flags (channel_made core c s r).1 ≡ flags s
    made-flags c s (done id, p) = refl
    made-flags c s (failed e, p) = refl

    described-flags :
        (k : SdpType) (s : PeerState Peer) (r : Called String × Peer)
        → flags (described core k s r).1 ≡ flags s
    described-flags k s (done sdp, p) = refl
    described-flags k s (failed e, p) = refl

    signaled-flags :
        (s : PeerState Peer) (r : Called (Unit {0}) × Peer) → flags (signaled core s r).1 ≡ flags s
    signaled-flags s (done u, p) = refl
    signaled-flags s (failed e, p) = refl

    remote-flags :
        (k : SdpType) (sdp : String) (s : PeerState Peer)
        → flags (remote_of core k sdp s).1 ≡ flags s
    remote-flags offer sdp s = signaled-flags s (core.set_remote_offer s.shared.peer sdp)
    remote-flags answer sdp s = signaled-flags s (core.set_remote_answer s.shared.peer sdp)
    remote-flags pranswer sdp s = signaled-flags s (core.set_remote_answer s.shared.peer sdp)
    remote-flags rollback sdp s = refl

    act-flags :
        (a : Act Peer) (s : PeerState Peer)
        → ((act core a s).0 ≡ yields (takes a) (flags s))
          × (flags (act core a s).1 ≡ next a (flags s))
    unfolding act wait_connected create_data_channel create_offer create_answer
        set_local_description set_remote_description add_ice_candidate close_connection
    act-flags (creating c) s = (
      refl,
      made-flags c s (core.create_data_channel s.shared.peer c.label c.ordered c.max_retransmits),
    )
    act-flags offering s =
        let t = ensure_pump s in
        (refl, described-flags offer t (core.create_offer t.shared.peer) ∙ ensured s)
    act-flags answering s =
        let t = ensure_pump s in
        (refl, described-flags answer t (core.create_answer t.shared.peer) ∙ ensured s)
    act-flags (setting_local d) s = (refl, ensured s)
    act-flags (setting_remote d) s = (refl, remote-flags d.kind d.sdp (ensure_pump s) ∙ ensured s)
    act-flags taking s =
        taken-local s.local_candidate s.candidate_taken s.started_pump s.runtime s.pumps s.shared
          s.local_channel s.waker s.nudges
    act-flags (adding c) s =
        let t = ensure_pump s in
        (refl, signaled-flags t (core.add_remote_candidate t.shared.peer c.candidate) ∙ ensured s)
    act-flags (waiting now) s = (refl, ensured s)
    act-flags (closing now) s = (refl, refl)
    act-flags (sharing f) s = (refl, refl)

    run-live :
        (acts : List (Act Peer)) (s : PeerState Peer) (c : String) (t b : Bool)
        → flags s ≡ live c t b
        → ((run core acts s).0 ≡ (if not t && any takes acts then candidate_of c ∷ [] else []))
          × (flags (run core acts s).1 ≡ live c (t || any takes acts) (b || any starts acts))
    unfolding run
    run-live [] s c true true e = (refl, e)
    run-live [] s c true false e = (refl, e)
    run-live [] s c false true e = (refl, e)
    run-live [] s c false false e = (refl, e)
    run-live (a ∷ acts) s c t b e =
        let one = act-flags a s in
        let later =
          run-live acts (act core a s).1 c (t || takes a) (b || starts a)
            (one.1 ∙ ap (next a) e ∙ next-live (starts a) (takes a) c t b) in
        (
          rw (one.0, later.0, ap (yields (takes a)) e)
              (yields-append (takes a) (any takes acts) t b c),
          rw
              (
                later.1,
                or_assoc t (takes a) (any takes acts),
                or_assoc b (starts a) (any starts acts),
              )
              refl,
        )

    run-dead :
        (acts : List (Act Peer)) (s : PeerState Peer)
        → flags s ≡ dead
        → ((run core acts s).0 ≡ []) × (flags (run core acts s).1 ≡ dead)
    unfolding run
    run-dead [] s e = (refl, e)
    run-dead (a ∷ acts) s e =
        let one = act-flags a s in
        let later =
          run-dead acts (act core a s).1 (one.1 ∙ ap (next a) e ∙ next-dead (starts a) (takes a)) in
        (rw (one.0, later.0, ap (yields (takes a)) e, yields-dead (takes a)) refl, later.1)

    -- Whatever calls are made on a new connection, in any order and with any changes of the shared
    -- state between them: with a socket, the streams of its candidates yield the candidate of the
    -- socket once in all if one was asked for, and nothing otherwise; and the pump is spawned once if
    -- an asynchronous method was called, and never otherwise. Without a socket no candidate is
    -- yielded and no pump is spawned.
    pub run_once :
        (acts : List (Act Peer)) (p : Peer) (c : String) (spare : Peer) (waker : ℕ)
        → let opened = run core acts (new_connection (some (p, c)) spare waker) in
          let lost = run core acts (new_connection none spare waker) in
          (opened.0 ≡ (if any takes acts then candidate_of c ∷ [] else []))
          × (opened.1.pumps ≡ (if any starts acts then 1 else 0))
          × (lost.0 ≡ [])
          × (lost.1.pumps ≡ 0)
    unfolding new_connection
    run_once acts p c spare waker =
        let opened = run-live acts (new_connection (some (p, c)) spare waker) c false false refl in
        let lost = run-dead acts (new_connection none spare waker) refl in
        (opened.0, ap (λ f. f.pumps) opened.1, lost.0, ap (λ f. f.pumps) lost.1)
