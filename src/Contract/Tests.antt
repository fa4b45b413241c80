-- ===== src/Contract/Tests.antt =====
-- The contract of wit/webrtc.wit at one channel of the guest and one of the host.
use wasi_webrtc_datachannels.Base.{◌≡◌, refl, true, false, some, List, [], ◌∷◌, nat_eq}
use wasi_webrtc_datachannels.Guest.State.{Channel, new_channel, PeerEvent, Shared, find}
use wasi_webrtc_datachannels.Guest.Pump.{new_shared}
use wasi_webrtc_datachannels.Host.Channel.{WebrtcResult, HostChannel, deferred}
use wasi_webrtc_datachannels.Contract.{contract, Call, receive, claim, trace}
use wasi_webrtc_datachannels.Contract.OnGuest.{guest_api, guest_view, IsTracked, guest_trace}
use wasi_webrtc_datachannels.Contract.OnHost.{host_api, host_view, IsWired, host_trace}
use wasi_webrtc_datachannels.Suite.Calls.{ok}

-- A channel whose message waits before the overflow that closed it.
abbrev overflowed : Channel
overflowed = record (new_channel 1 "a") {
  inbox = record { text = false; payload = 7 ∷ [] } ∷ [];
  inbox_bytes = 1;
  overflowed = true;
  closed = true;
}

abbrev holding : Channel → Shared (List PeerEvent)
holding c = record (new_shared []) { connected = true; channels = c ∷ [] }

abbrev calls : List Call
calls = receive ∷ claim ∷ receive ∷ claim ∷ []

overflowed-IsTracked : IsTracked 1 (holding overflowed)
unfolding find
overflowed-IsTracked = (overflowed, refl, λ e. refl)

guest_trace_example :
    trace (guest_api 1) calls (holding overflowed)
    ≡ trace (contract false) calls (guest_view 1 (holding overflowed))
guest_trace_example = guest_trace 1 calls (holding overflowed) overflowed-IsTracked

abbrev wired : HostChannel
wired = record deferred { wired = some (WebrtcResult.ok tt) }

abbrev queued : HostChannel
queued = record wired { queue = record { is_string = true; payload = 65 ∷ [] } ∷ []; ended = true }

queued-IsWired : IsWired queued
unfolding deferred
queued-IsWired = (refl, refl)

host_trace_example : trace host_api calls queued ≡ trace (contract true) calls (host_view queued)
host_trace_example = host_trace calls queued queued-IsWired
