-- ===== src/Base/Utf8.antt =====
-- `String::from_utf8` and `String::from_utf8_lossy` of Rust's standard library, on bytes.
use Prim.Native.Nat.{ℕ, zero, suc, ◌+◌, ◌-◌, ◌≤◌}
use mathlib.Core.Path.{◌≡◌, refl, ap, ◌∙◌}
use mathlib.Core.Bool.{Bool, true, false, ◌&&◌}
use mathlib.Core.List.{List, [], ◌∷◌, ◌++◌}
use native.Mathlib.Omega.{arith}
use wasi_webrtc_datachannels.Base.Tests.{ltb, leb, ◌==◌, nat_eq, if◌then◌else◌, if_cases}
use wasi_webrtc_datachannels.Base.Lists.{take, drop, length, take-append-drop, length-drop}

abbrev between : ℕ → ℕ → ℕ → Bool
between lo hi b = leb lo b && leb b hi

abbrev continues : ℕ → Bool
continues = between 128 191

-- The second bytes that may follow a first byte.
abbrev second : ℕ → ℕ → Bool
second a b =
    if a == 224
    then between 160 191 b
    else if a == 237
    then between 128 159 b
    else if a == 240
    then between 144 191 b
    else if a == 244
    then between 128 143 b
    else continues b

-- How many bytes a first byte asks for, 0 if it is none.
abbrev width : ℕ → ℕ
width a =
    if ltb a 128
    then 1
    else if between 194 223 a
    then 2
    else if between 224 239 a
    then 3
    else if between 240 244 a
    then 4
    else 0

pub record Chunk : Type 0 where
  pub size : ℕ
  pub good : Bool

abbrev chunk_of : ℕ → Bool → Chunk
chunk_of n b = record { size = n; good = b }

-- The bytes that follow the second one.
conts : ℕ → ℕ → List ℕ → Chunk
conts zero n bs = chunk_of n true
conts (suc k) n [] = chunk_of n false
conts (suc k) n (b ∷ bs) = if continues b then conts k (n + 1) bs else chunk_of n false

multi : ℕ → ℕ → List ℕ → Chunk
multi k a [] = chunk_of 1 false
multi k a (b ∷ bs) = if second a b then conts k 2 bs else chunk_of 1 false

-- The first character, or the longest part of one, which is replaced as a whole.
chunk : ℕ → List ℕ → Chunk
unfolding conts multi
chunk a rest =
    if width a == 0
    then chunk_of 1 false
    else if width a == 1
    then chunk_of 1 true
    else multi (width a - 2) a rest

-- U+FFFD.
abbrev replacement : List ℕ
replacement = 239 ∷ 191 ∷ 189 ∷ []

lossy : ℕ → List ℕ → List ℕ
lossy zero bs = []
lossy (suc f) [] = []
lossy (suc f) (a ∷ rest) =
    let c = chunk a rest in
    let tail = lossy f (drop c.size (a ∷ rest)) in
    if c.good then take c.size (a ∷ rest) ++ tail else replacement ++ tail

valid : ℕ → List ℕ → Bool
valid zero bs = true
valid (suc f) [] = true
valid (suc f) (a ∷ rest) =
    let c = chunk a rest in
    let tail = valid f (drop c.size (a ∷ rest)) in if c.good then tail else false

-- Each round takes a byte at least, so the length is fuel enough.
unfoldable pub from_utf8_lossy : List ℕ → List ℕ
unfolding lossy chunk
from_utf8_lossy bs = lossy (length bs) bs

-- Whether `String::from_utf8` accepts the bytes.
unfoldable pub is_utf8 : List ℕ → Bool
unfolding valid chunk
is_utf8 bs = valid (length bs) bs

conts-pos : (k n : ℕ) (bs : List ℕ) → 1 ≤ n → 1 ≤ (conts k n bs).size
unfolding conts
conts-pos zero n bs h = h
conts-pos (suc k) n [] h = h
conts-pos (suc k) n (b ∷ bs) h = ground (arith, conts-pos k (n + 1) bs)

multi-pos : (k a : ℕ) (bs : List ℕ) → 1 ≤ (multi k a bs).size
unfolding multi
multi-pos k a [] = omega arith
multi-pos k a (b ∷ bs) =
    if_cases (λ (c : Chunk). 1 ≤ c.size) (second a b) (conts k 2 bs) (chunk_of 1 false)
      (λ e. conts-pos k 2 bs (omega arith)) (λ e. omega arith)

chunk-pos : (a : ℕ) (rest : List ℕ) → 1 ≤ (chunk a rest).size
chunk-pos a rest =
    unfold chunk in
    if_cases (λ (c : Chunk). 1 ≤ c.size) (width a == 0) _ _ (λ e. omega arith)
      (λ e.
        if_cases (λ (c : Chunk). 1 ≤ c.size) (width a == 1) _ _ (λ e. omega arith)
          (λ e. multi-pos (width a - 2) a rest))

lossy-valid : (f : ℕ) (bs : List ℕ) → length bs ≤ f → valid f bs ≡ true → lossy f bs ≡ bs
unfolding lossy valid
lossy-valid zero [] h v = refl
lossy-valid zero (a ∷ rest) h v = absurd (omega arith)
lossy-valid (suc f) [] h v = refl
lossy-valid (suc f) (a ∷ rest) h v =
    let n = (chunk a rest).size in
    let tail = drop n (a ∷ rest) in
    let good : (chunk a rest).good ≡ true = ground arith in
    let below : length tail ≤ f = omega (arith, length-drop n (a ∷ rest), chunk-pos a rest) in
    let ih : lossy f tail ≡ tail = lossy-valid f tail below (rw good at v) in
    rw good (ap (λ l. take n (a ∷ rest) ++ l) ih ∙ take-append-drop n (a ∷ rest))

-- Bytes that are UTF-8 are kept as they are.
pub from_utf8_lossy_valid : (bs : List ℕ) → is_utf8 bs ≡ true → from_utf8_lossy bs ≡ bs
unfolding is_utf8 from_utf8_lossy
from_utf8_lossy_valid bs v = lossy-valid (length bs) bs (omega arith) v
