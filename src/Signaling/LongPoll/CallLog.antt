-- ===== src/Signaling/LongPoll/CallLog.antt =====
-- A notifier with the behaviour that the model of conformance/signaling/server/src/state.rs asks of
-- tokio's.
use wasi_webrtc_datachannels.Base.{
  ℕ, ◌≡◌, ◌≢◌, refl, Bool, true, false, List, [], ◌∷◌, ◌==◌, nat_eq, if◌then◌else◌, arith,
}
use wasi_webrtc_datachannels.Signaling.LongPoll.{Notify}

-- A future has resolved once its notifier was called.
unfoldable pub called : ℕ → List ℕ → Bool
called n [] = false
called n (j ∷ calls) = if j == n then true else called n calls

pub called_wakes : (n : ℕ) (calls : List ℕ) → called n (n ∷ calls) ≡ true
unfolding called
called_wakes n calls = ground (arith, nat_eq.eq_iff n n)

pub called_others : (n j : ℕ) (calls : List ℕ) → n ≢ j → called n (j ∷ calls) ≡ called n calls
unfolding called
called_others n j calls h = ground (arith, nat_eq.eq_iff j n)

pub called_waits : (n : ℕ) → called n [] ≡ false
unfolding called
called_waits n = refl

abbrev pub call_log : Notify
unfolding called
call_log = record {
  woken = called;
  waits = called_waits;
  wakes = called_wakes;
  others = called_others;
}
