-- ===== src/Contract/OnHost.antt =====
-- The channel of wasmtime-impl/src/host.rs refines the contract.
use wasi_webrtc_datachannels.Base.{
  ◌≡◌, refl, sym, subst, Bool, true, false, not, ◌&&◌, Option, none, some, List, [], ◌∷◌, map,
  if◌then◌else◌, arith,
}
use wasi_webrtc_datachannels.Guest.Provider.{Error, Message, Result, ok, err, Attempt, ready, wait}
use wasi_webrtc_datachannels.Host.Inbound.{InboundMessage}
use wasi_webrtc_datachannels.Host.Channel.{
  WebrtcResult, to_error, to_message, HostChannel, begin_stream_receiving, receive_via_stream,
  next_inbound, pending_receive, receive,
}
use wasi_webrtc_datachannels.Contract.{
  ReceiveApi, Inbox, contract, IsRefinement, Call, trace, trace-refines,
}

abbrev to_result {ℓ} : {A : Type ℓ} → WebrtcResult A → Result A
to_result (WebrtcResult.ok a) = ok a
to_result (WebrtcResult.err e) = err (to_error e)

abbrev to_attempt : Option (WebrtcResult Message) → Attempt Message
to_attempt none = wait
to_attempt (some r) = ready (to_result r)

abbrev pub host_api : ReceiveApi HostChannel
host_api = record {
  receive = λ c. let (r, d) = receive c in (to_attempt r, d);
  claim = λ c. let (r, d) = receive_via_stream c in (to_result r, d);
}

abbrev ending_of : Bool → Bool → Bool → Option Error
ending_of ended overflowed fired =
    if ended
    then some (if overflowed then Error.receive_buffer_overflow else Error.closed)
    else if fired
    then some Error.closed
    else none

abbrev pub host_view : HostChannel → Inbox
host_view c = record {
  backlog = map (λ m. to_result (to_message m)) c.queue;
  claimed = c.stream_receiving;
  ending = ending_of c.ended c.overflowed c.fired;
}

-- The wiring has succeeded, and the channel is claimed exactly if the sender has been taken.
abbrev pub IsWired : HostChannel → Type 0
IsWired c = (c.wired ≡ some (WebrtcResult.ok tt)) × (c.stream_receiving ≡ not c.started_tx)

abbrev channel : Bool → Bool → List InboundMessage → Bool → Bool → HostChannel
channel claimed fired queue ended overflowed = record {
  wired = some (WebrtcResult.ok tt);
  stream_receiving = claimed;
  started_tx = not claimed;
  fired = fired;
  queue = queue;
  ended = ended;
  overflowed = overflowed;
}

abbrev ReceiveStep : HostChannel → Type 0
ReceiveStep c =
    IsWired (host_api.receive c).1
    × (((host_api.receive c).0, host_view (host_api.receive c).1)
        ≡ (contract true).receive (host_view c))

receive_step : (t f : Bool) (q : List InboundMessage) (e o : Bool) → ReceiveStep (channel t f q e o)
unfolding receive pending_receive next_inbound contract to_error
receive_step true f q e o = ((refl, refl), refl)
receive_step false f (m ∷ q) e o = ((refl, refl), refl)
receive_step false f [] true true = ((refl, refl), refl)
receive_step false f [] true false = ((refl, refl), refl)
receive_step false true [] false o = ((refl, refl), refl)
receive_step false false [] false o = ((refl, refl), refl)

abbrev ClaimStep : HostChannel → Type 0
ClaimStep c =
    IsWired (host_api.claim c).1
    × (((host_api.claim c).0, host_view (host_api.claim c).1) ≡ (contract true).claim (host_view c))

claim_step : (t f : Bool) (q : List InboundMessage) (e o : Bool) → ClaimStep (channel t f q e o)
unfolding receive_via_stream begin_stream_receiving contract to_error
claim_step true f q e o = ((refl, refl), refl)
claim_step false f q true o = ((refl, refl), refl)
claim_step false true q false o = ((refl, refl), refl)
claim_step false false q false o = ((refl, refl), refl)

-- A wired channel is one of those that the steps are about.
shape :
    (c : HostChannel)
    → IsWired c
    → c ≡ channel c.stream_receiving c.fired c.queue c.ended c.overflowed
shape c g = ground arith

receive_wired : (c : HostChannel) → IsWired c → ReceiveStep c
receive_wired c g =
    subst ReceiveStep (sym (shape c g))
      (receive_step c.stream_receiving c.fired c.queue c.ended c.overflowed)

claim_wired : (c : HostChannel) → IsWired c → ClaimStep c
claim_wired c g =
    subst ClaimStep (sym (shape c g))
      (claim_step c.stream_receiving c.fired c.queue c.ended c.overflowed)

pub host_refines : IsRefinement host_api true host_view IsWired
host_refines = record {
  receive_good = λ c g. (receive_wired c g).0;
  claim_good = λ c g. (claim_wired c g).0;
  receive_view = λ c g. (receive_wired c g).1;
  claim_view = λ c g. (claim_wired c g).1;
}

-- A receive that waits is woken by what `started_tx` sends.
abbrev pub host_wakes : HostChannel → HostChannel → Bool
host_wakes c d = c.started_tx && not d.started_tx

-- A claim of a channel that is not claimed wakes the receives that wait.
pub host_woken :
    (c : HostChannel)
    → IsWired c
    → (host_view c).claimed ≡ false
    → host_wakes c (host_api.claim c).1 ≡ true
unfolding receive_via_stream begin_stream_receiving
host_woken c w claimed = ground (arith, w.1)

-- Whatever calls of `receive` and `receive-via-stream` a client of the host makes on a wired channel,
-- one after the other while nothing arrives, it sees what the contract says of the channel's view: the
-- queued messages in order, then the overflow or the close, whether the queue has ended or the
-- connection is closed, or a wait; and once it has claimed the messages, `receiving-via-stream` from
-- both calls. Unlike in the guest, a channel that has ended can still be claimed.
pub host_trace :
    (cs : List Call) (c : HostChannel)
    → IsWired c
    → trace host_api cs c ≡ trace (contract true) cs (host_view c)
host_trace = trace-refines host_api true host_view IsWired host_refines
