-- ===== src/Suite/Calls.antt =====
-- What a test of conformance/guest/src/lib.rs sees of a data channel: the results that its calls of
-- `send` and of `receive` get, each kind in order, and the messages that it has sent. A call whose
-- results are used up never returns, which is `none`. The two kinds share nothing, so two futures
-- of which one sends and the other receives give under `join!` what they give one after the other.
use wasi_webrtc_datachannels.Base.{ℕ, Option, none, some, String, List, [], ◌∷◌, ◌++◌}
use Prim.Native.String.{◌++◌ as ◌<>◌}
use wasi_webrtc_datachannels.Guest.Provider.{
  Error, timed_out, invalid_signaling, receiving_via_stream, receive_buffer_overflow, Message,
  Result,
}

-- The texts of failures; what `{:?}` prints is kept as the value, and numbers as numbers.
pub data Detail : Type 0 where
  said : String → Detail
  label_was : String → Detail
  unhandled : String → Detail
  wrong_count : ℕ → ℕ → Detail
  wrong_index : ℕ → ℕ → Detail
  wrong_length : ℕ → ℕ → Detail
  stream_ended : ℕ → ℕ → Detail

pub data Checked {ℓ} (A : Type ℓ) : Type ℓ where
  ok : A → Checked A
  err : Detail → Checked A

abbrev pub describe : Error → String
describe Error.closed = "closed"
describe timed_out = "timed-out"
describe (invalid_signaling detail) = "invalid-signaling: " <> detail
describe receiving_via_stream = "receiving-via-stream"
describe receive_buffer_overflow = "receive-buffer-overflow"
describe (Error.other detail) = "other: " <> detail

-- `map_err` with the name of the call.
abbrev pub map_err {ℓ} : {A : Type ℓ} → String → Result A → Checked A
map_err call (Result.ok a) = ok a
map_err call (Result.err e) = err (said (call <> ": " <> describe e))

pub record Calls : Type 0 where
  pub sends : List (Result (Unit {0}))
  pub receives : List (Result Message)
  pub sent : List Message

-- A test over a state: `none` where it never returns.
abbrev pub Run {ℓ} : Type 0 → Type ℓ → Type ℓ
Run S A = S → Option (A × S)

abbrev pub Prog {ℓ} : Type ℓ → Type ℓ
Prog A = Run Calls A

module _ {S : Type 0} where
  abbrev pub bind {ℓ κ} :
      {A : Type ℓ} {B : Type κ} → Option (A × S) → (A → Run S B) → Option (B × S)
  bind none f = none
  bind (some (a, c)) f = f a c

  -- `?`: an error ends the test.
  abbrev pub or_return {ℓ κ} :
      {A : Type ℓ} {B : Type κ} → (A → Run S (Checked B)) → Checked A → Run S (Checked B)
  or_return f (ok a) c = f a c
  or_return f (err d) c = some (err d, c)

  infixl 5 ◌>>=◌ ◌>>◌
  abbrev pub ◌>>=◌ {ℓ κ} :
      {A : Type ℓ} {B : Type κ} → Run S (Checked A) → (A → Run S (Checked B)) → Run S (Checked B)
  ◌>>=◌ m f c = bind (m c) (or_return f)

  abbrev pub ◌>>◌ {ℓ κ} :
      {A : Type ℓ} {B : Type κ} → Run S (Checked A) → Run S (Checked B) → Run S (Checked B)
  m >> k = m >>= λ _. k

  abbrev pub return {ℓ} : {A : Type ℓ} → A → Run S A
  return a c = some (a, c)

abbrev send_next : Message → Calls → List (Result (Unit {0})) → Option (Result (Unit {0}) × Calls)
send_next m c [] = none
send_next m c (r ∷ rs) = some (r, record c { sends = rs; sent = c.sent ++ m ∷ [] })

-- `DataChannel::send` and `receive` of the interface under test.
abbrev pub call_send : Message → Prog (Result (Unit {0}))
call_send m c = send_next m c c.sends

abbrev receive_next : Calls → List (Result Message) → Option (Result Message × Calls)
receive_next c [] = none
receive_next c (r ∷ rs) = some (r, record c { receives = rs })

abbrev pub call_receive : Prog (Result Message)
call_receive c = receive_next c c.receives

-- The guest's helpers of the same names.
abbrev pub send : Message → Prog (Checked (Unit {0}))
send m c = bind (call_send m c) (λ r. return (map_err "send" r))

abbrev pub receive : Prog (Checked Message)
receive c = bind (call_receive c) (λ r. return (map_err "receive" r))

-- `join!` of two futures, and what they return, unexamined.
abbrev pub join {ℓ κ} : {A : Type ℓ} {B : Type κ} → Prog A → Prog B → Prog (A × B)
join m k c = bind (m c) (λ a c'. bind (k c') (λ b. return (a, b)))

-- The results of a pair of joined futures, looked at in order.
abbrev pub both {ℓ κ} : {A : Type ℓ} {B : Type κ} → Checked A × Checked B → Checked B
both (ok a, r) = r
both (err d, r) = err d
