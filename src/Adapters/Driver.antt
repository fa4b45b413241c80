-- ===== src/Adapters/Driver.antt =====
-- The command line of the composed guest, conformance/adapters/wasip3/driver/src/lib.rs.
pub mod RoundTrip
use wasi_webrtc_datachannels.Base.{
  ℕ, Bool, true, false, Option, none, some, String, List, [], ◌∷◌, ◌==◌, string_eq, if◌then◌else◌,
}
use wasi_webrtc_datachannels.Base.Text.{bytes, parse_usize}

pub data Role : Type 0 where
  offerer answerer both : Role

pub record TestConfig : Type 0 where
  pub role : Role
  pub signaling_server : String
  pub room : String
  pub message_count : ℕ
  pub message_size : ℕ
  pub trickle : Bool

-- What goes wrong; the usage text follows each message.
pub data Usage : Type 0 where
  missing_value : String → Usage
  unknown_role : String → Usage
  bad_count : Usage
  bad_size : Usage
  unknown_flag : String → Usage
  missing : String → Usage

pub data Parsed {ℓ} (A : Type ℓ) : Type ℓ where
  ok : A → Parsed A
  err : Usage → Parsed A

pub record Seen : Type 0 where
  pub test_id : Option String
  pub role : Option Role
  pub server : Option String
  pub room : Option String
  pub message_count : ℕ
  pub message_size : ℕ
  pub trickle : Bool

abbrev pub nothing_seen : Seen
nothing_seen = record {
  test_id = none;
  role = none;
  server = none;
  room = none;
  message_count = 4;
  message_size = 256;
  trickle = true;
}

pub data Flag : Type 0 where
  test : Flag
  role : Flag
  server : Flag
  room : Flag
  count : Flag
  size : Flag
  no_trickle : Flag
  other : Flag

unfoldable pub flag_of : String → Flag
flag_of flag =
    if flag == "--test"
    then test
    else if flag == "--role"
    then role
    else if flag == "--server"
    then server
    else if flag == "--room"
    then room
    else if flag == "--message-count"
    then count
    else if flag == "--message-size"
    then size
    else if flag == "--no-trickle"
    then no_trickle
    else other

abbrev set_role : Seen → String → Parsed Seen
set_role p v =
    if v == "offerer"
    then ok (record p { role = some offerer })
    else if v == "answerer"
    then ok (record p { role = some answerer })
    else if v == "both"
    then ok (record p { role = some both })
    else err (unknown_role v)

abbrev parse_u32 : String → Option ℕ
parse_u32 v = parse_usize 32 (bytes v)

abbrev with_count : Seen → Option ℕ → Parsed Seen
with_count p none = err bad_count
with_count p (some n) = ok (record p { message_count = n })

abbrev with_size : Seen → Option ℕ → Parsed Seen
with_size p none = err bad_size
with_size p (some n) = ok (record p { message_size = n })

-- A flag that takes a value, with it.
unfoldable pub take_value : Flag → String → String → Seen → Parsed Seen
take_value test flag v p = ok (record p { test_id = some v })
take_value role flag v p = set_role p v
take_value server flag v p = ok (record p { server = some v })
take_value room flag v p = ok (record p { room = some v })
take_value count flag v p = with_count p (parse_u32 v)
take_value size flag v p = with_size p (parse_u32 v)
take_value no_trickle flag v p = ok (record p { trickle = false })
take_value other flag v p = err (unknown_flag flag)

-- A flag with nothing after it.
unfoldable pub take_last : Flag → String → Seen → Parsed Seen
take_last no_trickle flag p = ok (record p { trickle = false })
take_last other flag p = err (unknown_flag flag)
take_last f flag p = err (missing_value flag)

abbrev pub and_then : Parsed Seen → (Seen → Parsed Seen) → Parsed Seen
and_then (ok p) k = k p
and_then (err u) k = err u

abbrev is_no_trickle : Flag → Bool
is_no_trickle no_trickle = true
is_no_trickle f = false

-- The loop over the arguments; `--no-trickle` is the one flag without a value.
unfoldable pub parse_flags : List String → Seen → Parsed Seen
unfolding take_value take_last
parse_flags [] p = ok p
parse_flags (flag ∷ []) p = take_last (flag_of flag) flag p
parse_flags (flag ∷ v ∷ rest) p =
    let alone : Parsed Seen = parse_flags (v ∷ rest) (record p { trickle = false }) in
    let valued : Parsed Seen =
      and_then (take_value (flag_of flag) flag v p) (λ q. parse_flags rest q) in
    if is_no_trickle (flag_of flag) then alone else valued

abbrev require {ℓ κ} : {A : Type ℓ} {B : Type κ} → String → Option A → (A → Parsed B) → Parsed B
require what none k = err (missing what)
require what (some a) k = k a

abbrev finished : Seen → Parsed (String × TestConfig)
finished p = require "--test" p.test_id λ test_id. require "--role" p.role λ r.
    require "--server" p.server λ server. require "--room" p.room λ room. ok (
      test_id,
      record {
        role = r;
        signaling_server = server;
        room = room;
        message_count = p.message_count;
        message_size = p.message_size;
        trickle = p.trickle;
      },
    )

abbrev finish_flags : Parsed Seen → Parsed (String × TestConfig)
finish_flags (ok p) = finished p
finish_flags (err u) = err u

unfoldable pub parse_args : List String → Parsed (String × TestConfig)
unfolding parse_flags
parse_args args = finish_flags (parse_flags args nothing_seen)
