-- ===== src/Suite/Barrier/TwoPeer.antt =====
-- Two peers that run the same test against each other.
use wasi_webrtc_datachannels.Guest.Provider.{Error, Message, binary, Result}
use wasi_webrtc_datachannels.Suite.Calls.{ok}
use wasi_webrtc_datachannels.Suite.Barrier.{sentinel}

-- How a peer that has completed its exchange ends: by its sentinel, or by a close that overtakes it.
pub data Ending : Type 0 where
  by_sentinel : Ending
  by_close : Ending

abbrev pub ended : Ending → Result Message
ended by_sentinel = Result.ok (binary sentinel)
ended by_close = Result.err Error.closed
