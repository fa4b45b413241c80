-- ===== src/Base/Text.antt =====
-- Rust's `str` as bytes: UTF-8 encoding, and decimal parsing as `str::parse::<usize>` does it.
use Prim.Native.Nat.{ℕ, zero, suc, ◌+◌, ◌-◌, ◌*◌, ◌/◌, ◌%◌, ◌^◌, ◌≤◌, ◌<◌}
use Prim.Native.Char.{code}
use Prim.Native.String.{String, ◌++◌ as str_append}
use mathlib.Core.Path.{◌≡◌, refl}
use mathlib.Core.Bool.{Bool, ◌&&◌}
use mathlib.Core.Option.{Option, none, some}
use mathlib.Core.List.{List, [], ◌∷◌, ◌++◌}
use native.Mathlib.Omega.{arith}
use wasi_webrtc_datachannels.Base.Tests.{ltb, leb, ◌==◌, nat_eq, if◌then◌else◌}

-- The code points of a text. `String` has its own `[]` and `∷`.
abbrev pub codes : String → List ℕ
codes String.[] = []
codes (String.◌∷◌ c s) = code c ∷ codes s

-- The UTF-8 bytes of a code point.
unfoldable pub encode : ℕ → List ℕ
encode c =
    if ltb c 128
    then c ∷ []
    else if ltb c 2048
    then (192 + c / 64) ∷ (128 + c % 64) ∷ []
    else if ltb c 65536
    then (224 + c / 4096) ∷ (128 + c / 64 % 64) ∷ (128 + c % 64) ∷ []
    else (240 + c / 262144) ∷ (128 + c / 4096 % 64) ∷ (128 + c / 64 % 64) ∷ (128 + c % 64) ∷ []

unfoldable pub encode_all : List ℕ → List ℕ
encode_all [] = []
encode_all (c ∷ cs) = encode c ++ encode_all cs

-- `str::as_bytes`.
abbrev pub bytes : String → List ℕ
bytes s = encode_all (codes s)

abbrev pub is_digit : ℕ → Bool
is_digit b = leb b'0' b && leb b b'9'

-- The digits from the left, `none` at another byte or once the value leaves the word of `w` bits.
unfoldable pub parse_digits : ℕ → ℕ → List ℕ → Option ℕ
parse_digits w acc [] = some acc
parse_digits w acc (b ∷ bs) =
    let acc' = acc * 10 + (b - b'0') in
    let rest = parse_digits w acc' bs in if is_digit b && ltb acc' (2 ^ w) then rest else none

-- An optional `+`, then at least one digit.
unfoldable pub parse_usize : ℕ → List ℕ → Option ℕ
parse_usize w [] = none
parse_usize w (b ∷ []) = parse_digits w 0 (b ∷ [])
parse_usize w (b ∷ c ∷ bs) =
    if b == b'+' then parse_digits w 0 (c ∷ bs) else parse_digits w 0 (b ∷ c ∷ bs)

parse_digits-lt :
    (w acc : ℕ) (bs : List ℕ) (n : ℕ) → acc < 2 ^ w → parse_digits w acc bs ≡ some n → n < 2 ^ w
unfolding parse_digits
parse_digits-lt w acc [] n h e = ground arith
parse_digits-lt w acc (b ∷ bs) n h e =
    ground (arith, parse_digits-lt w (acc * 10 + (b - b'0')) bs n)

-- A parsed number fits its word.
pub parse_usize-lt :
    (w : ℕ) (bs : List ℕ) (n : ℕ) → 1 ≤ 2 ^ w → parse_usize w bs ≡ some n → n < 2 ^ w
unfolding parse_usize
parse_usize-lt w [] n h e = cc
parse_usize-lt w (b ∷ []) n h e = parse_digits-lt w 0 (b ∷ []) n (omega arith) e
parse_usize-lt w (b ∷ c ∷ bs) n h e =
    ground (arith, parse_digits-lt w 0 (c ∷ bs) n, parse_digits-lt w 0 (b ∷ c ∷ bs) n)

-- A number as `{}` prints it.
abbrev pub digit : ℕ → String
digit n =
    if n == 0
    then "0"
    else if n == 1
    then "1"
    else if n == 2
    then "2"
    else if n == 3
    then "3"
    else if n == 4
    then "4"
    else if n == 5
    then "5"
    else if n == 6
    then "6"
    else if n == 7
    then "7"
    else if n == 8
    then "8"
    else "9"

unfoldable pub decimal_from : ℕ → ℕ → String
decimal_from zero n = ""
decimal_from (suc f) n =
    let front = decimal_from f (n / 10) in
    if ltb n 10 then digit n else str_append front (digit (n % 10))

-- A quotient by 10 is smaller, so as many rounds as the number are enough.
unfoldable pub decimal : ℕ → String
unfolding decimal_from
decimal n = decimal_from (suc n) n

decimal_example : decimal 49160 ≡ "49160"
unfolding decimal
decimal_example = refl
