-- ===== src/Host/Descriptions.antt =====
-- How the Wasmtime host negotiates: `create_data_channel` and its spawned tasks, the offer and the
-- answer, the descriptions and the candidates of wasmtime-impl/src/peer_connection.rs, the wiring of
-- data_channel.rs and the checks of host.rs. The `webrtc` crate is a record of its calls. Each stretch
-- of a task between two awaits is a step.
pub mod Covering
use wasi_webrtc_datachannels.Base.{
  ℕ, ◌+◌, ◌-◌, ◌%◌, ◌^◌, Bool, true, false, Option, none, some, String, List, [], ◌∷◌, ◌++◌, ◌==◌,
  nat_eq, if◌then◌else◌,
}
use wasi_webrtc_datachannels.Guest.Connection.{
  DcConfig, SdpType, SessionDescription, IceCandidate, Called, done, failed,
}
use wasi_webrtc_datachannels.Host.Connection.{Built, building, built, unbuilt}
use wasi_webrtc_datachannels.Host.Channel.{WebrtcError, WebrtcResult, ok, err}
use wasi_webrtc_datachannels.Host.Streams.{Receiver}

pub data SdpKind : Type 0 where
  offer answer pranswer : SdpKind

unfoldable pub to_sdp_kind : SdpType → WebrtcResult SdpKind
to_sdp_kind SdpType.offer = ok offer
to_sdp_kind SdpType.answer = ok answer
to_sdp_kind SdpType.pranswer = ok pranswer
to_sdp_kind SdpType.rollback =
    err (WebrtcError.invalid_signaling "rollback descriptions are not supported")

-- `parse` gives the text of the error of a description that does not parse.
pub record RtcConnection (Wire : Type 0) : Type 0 where
  pub create_data_channel : Wire → DcConfig → Called ℕ × Wire
  pub create_offer : Wire → Called String × Wire
  pub create_answer : Wire → Called String × Wire
  pub parse : SdpKind → String → Option String
  pub set_local_description : Wire → SdpKind → String → Called (Unit {0}) × Wire
  pub set_remote_description : Wire → SdpKind → String → Called (Unit {0}) × Wire
  pub add_ice_candidate : Wire → IceCandidate → Called (Unit {0}) × Wire

-- The task of one channel: it waits for the connection, has its result, or has ended.
pub data Task : Type 0 where
  queued : DcConfig → Task
  created : WebrtcResult ℕ → Task
  ended : WebrtcResult ℕ → Task

-- `pending` is `pending_channels`, a `usize`; `reason` is the text of a build that failed.
pub record Negotiation (Wire : Type 0) : Type 0 where
  pub built : Built
  pub reason : String
  pub wire : Wire
  pub tasks : List Task
  pub pending : ℕ

abbrev pub other_error {ℓ} : {A : Type ℓ} → Called A → WebrtcResult A
other_error (done a) = ok a
other_error (failed text) = err (WebrtcError.other text)

abbrev pub signaling_error {ℓ} : {A : Type ℓ} → Called A → WebrtcResult A
signaling_error (done a) = ok a
signaling_error (failed text) = err (WebrtcError.invalid_signaling text)

-- The error that a build that failed leaves to every method.
abbrev pub build_error {ℓ} : {A : Type ℓ} → String → WebrtcResult A
build_error text = err (WebrtcError.other text)

unfoldable pub end_pending : ℕ → ℕ
end_pending k = (k + (2 ^ 64 - 1)) % 2 ^ 64

module _ {Wire : Type 0} where
  -- With a runtime: the count goes up before the task is spawned.
  unfoldable pub create_data_channel : DcConfig → Negotiation Wire → Negotiation Wire
  create_data_channel config n = record n {
    tasks = n.tasks ++ queued config ∷ [];
    pending = (n.pending + 1) % 2 ^ 64;
  }

module _ {Wire : Type 0} (rtc : RtcConnection Wire) where
  abbrev registered : Called ℕ × Wire → Task × Wire
  registered (r, w) = (created (other_error r), w)

  -- The next stretch of a task: the connection is awaited, the channel is registered, the count goes
  -- down.
  unfoldable pub advance_task : Built → String → Wire → ℕ → Task → (Task × Wire) × ℕ
  unfolding end_pending
  advance_task building why w k (queued config) = ((queued config, w), k)
  advance_task unbuilt why w k (queued config) = ((created (build_error why), w), k)
  advance_task built why w k (queued config) = (registered (rtc.create_data_channel w config), k)
  advance_task b why w k (created r) = ((ended r, w), end_pending k)
  advance_task b why w k (ended r) = ((ended r, w), k)

  -- The task at a place moves on.
  unfoldable pub advance : Built → String → Wire → ℕ → ℕ → List Task → (List Task × Wire) × ℕ
  unfolding advance_task
  advance b why w k i [] = (([], w), k)
  advance b why w k i (t ∷ ts) =
      let first = advance_task b why w k t in
      let rest = advance b why w k (i - 1) ts in
      if i == 0 then ((first.0.0 ∷ ts, first.0.1), first.1) else ((t ∷ rest.0.0, rest.0.1), rest.1)

  unfoldable pub run_task : ℕ → Negotiation Wire → Negotiation Wire
  unfolding advance
  run_task i n =
      let a = advance n.built n.reason n.wire n.pending i n.tasks in
      record n { wire = a.0.1; tasks = a.0.0; pending = a.1 }

  -- An attempt at a method that waits for the build and for the tasks; `none` where it waits.
  abbrev described :
      Negotiation Wire → Called String × Wire → Option (WebrtcResult String) × Negotiation Wire
  described n (r, w) = (some (other_error r), record n { wire = w })

  abbrev once_settled :
      Negotiation Wire
      → Built
      → (Wire → Called String × Wire)
      → Option (WebrtcResult String) × Negotiation Wire
  once_settled n building call = (none, n)
  once_settled n unbuilt call = (some (build_error n.reason), n)
  once_settled n built call = if n.pending == 0 then described n (call n.wire) else (none, n)

  unfoldable pub create_offer : Negotiation Wire → Option (WebrtcResult String) × Negotiation Wire
  create_offer n = once_settled n n.built rtc.create_offer

  unfoldable pub create_answer : Negotiation Wire → Option (WebrtcResult String) × Negotiation Wire
  create_answer n = once_settled n n.built rtc.create_answer

  abbrev set_parsed :
      Negotiation Wire
      → Option String
      → Called (Unit {0}) × Wire
      → WebrtcResult (Unit {0}) × Negotiation Wire
  set_parsed n (some text) r = (err (WebrtcError.invalid_signaling text), n)
  set_parsed n none (r, w) = (other_error r, record n { wire = w })

  abbrev set_kind :
      Negotiation Wire
      → WebrtcResult SdpKind
      → String
      → Built
      → (SdpKind → Called (Unit {0}) × Wire)
      → Option (WebrtcResult (Unit {0}) × Negotiation Wire)
  set_kind n (err e) sdp b call = some (err e, n)
  set_kind n (ok kind) sdp building call = none
  set_kind n (ok kind) sdp unbuilt call = some (build_error n.reason, n)
  set_kind n (ok kind) sdp built call = some (set_parsed n (rtc.parse kind sdp) (call kind))

  unfoldable pub set_local_description :
      SessionDescription → Negotiation Wire → Option (WebrtcResult (Unit {0}) × Negotiation Wire)
  unfolding to_sdp_kind
  set_local_description d n =
      set_kind n (to_sdp_kind d.kind) d.sdp n.built
        (λ kind. rtc.set_local_description n.wire kind d.sdp)

  unfoldable pub set_remote_description :
      SessionDescription → Negotiation Wire → Option (WebrtcResult (Unit {0}) × Negotiation Wire)
  unfolding to_sdp_kind
  set_remote_description d n =
      set_kind n (to_sdp_kind d.kind) d.sdp n.built
        (λ kind. rtc.set_remote_description n.wire kind d.sdp)

  abbrev added :
      Negotiation Wire
      → Built
      → Called (Unit {0}) × Wire
      → Option (WebrtcResult (Unit {0}) × Negotiation Wire)
  added n building r = none
  added n unbuilt r = some (build_error n.reason, n)
  added n built (r, w) = some (signaling_error r, record n { wire = w })

  unfoldable pub add_ice_candidate :
      IceCandidate → Negotiation Wire → Option (WebrtcResult (Unit {0}) × Negotiation Wire)
  add_ice_candidate c n = added n n.built (rtc.add_ice_candidate n.wire c)

-- What the wiring of a channel resolves to: `opened` is how its pump's open signal ended, `some false`
-- where the pump ended before the channel opened.
unfoldable pub wiring : Task → Option Bool → Option (WebrtcResult ℕ)
wiring (ended (ok channel)) (some true) = some (ok channel)
wiring (ended (ok channel)) (some false) = some (err WebrtcError.closed)
wiring (ended (ok channel)) none = none
wiring (ended (err e)) opened = some (err e)
wiring other opened = none

-- The callbacks that feed the stream of local candidates.
unfoldable pub on_ice_candidate : IceCandidate → Receiver IceCandidate → Receiver IceCandidate
on_ice_candidate c r = if r.over then r else record r { items = r.items ++ c ∷ [] }

unfoldable pub on_gathering_complete : Receiver IceCandidate → Receiver IceCandidate
on_gathering_complete r = record r { over = true }
