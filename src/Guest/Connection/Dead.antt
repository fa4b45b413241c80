-- ===== src/Guest/Connection/Dead.antt =====
-- What a connection of wasip3-impl/src/provider.rs whose socket could not be bound answers.
use wasi_webrtc_datachannels.Base.{◌≡◌, Bool, true, false, []}
use wasi_webrtc_datachannels.Guest.State.{Shared}
use wasi_webrtc_datachannels.Guest.Connection.{failed}
use wasi_webrtc_datachannels.Guest.Connection.Acts.{Act, sharing}

-- Whether an act is a change of the shared state by something other than the calls.
abbrev pub shares : {Peer : Type 0} → Act Peer → Bool
shares (sharing f) = true
shares a = false

module _ {Peer : Type 0} where
  abbrev IsDead : Shared Peer → Type 0
  IsDead s = (s.closed ≡ true) × (s.failed ≡ true) × (s.channels ≡ []) × (s.connected ≡ false)
