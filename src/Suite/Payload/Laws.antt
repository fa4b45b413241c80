-- ===== src/Suite/Payload/Laws.antt =====
-- What the payload check of the conformance guest accepts.
use wasi_webrtc_datachannels.Base.{
  ℕ, zero, suc, ◌-◌, ◌/◌, ◌%◌, ◌^◌, ◌<◌, ◌≡◌, refl, ap, ◌∙◌, sym, true, some, List, [], ◌∷◌, ◌++◌,
  length, All, nat_eq, arith,
}
use wasi_webrtc_datachannels.Suite.Payload.{
  max, to_le_bytes, from_le_bytes, expected_byte, pattern_from, make_payload, payload_index,
  matches_from, verify_payload,
}

abbrev pub IsByte : ℕ → Type 0
IsByte b = b < 256

length-pattern_from : (i o n : ℕ) → length (pattern_from i o n) ≡ n
unfolding pattern_from
length-pattern_from i o zero = refl
length-pattern_from i o (suc n) = ap suc (length-pattern_from i (suc o) n)

-- A payload has the size that was asked for, and never less than the index takes.
pub length-make_payload : (i n : ℕ) → length (make_payload i n) ≡ max n 4
unfolding make_payload
length-make_payload i n = ground (arith, length-pattern_from i 0 (max n 4 - 4))

matches-pattern_from : (i o n : ℕ) → matches_from i o (pattern_from i o n) ≡ true
unfolding matches_from pattern_from
matches-pattern_from i o zero = refl
matches-pattern_from i o (suc n) = ground (arith, matches-pattern_from i (suc o) n)

matches-eq :
    (i o : ℕ) (bs : List ℕ) → matches_from i o bs ≡ true → bs ≡ pattern_from i o (length bs)
unfolding matches_from pattern_from
matches-eq i o [] h = refl
matches-eq i o (b ∷ bs) h =
    ground (arith, nat_eq.eq_iff b (expected_byte i o), matches-eq i (suc o) bs)

from_to :
    (i : ℕ)
    → i < 2 ^ 32
    → from_le_bytes (i % 256) (i / 256 % 256) (i / 65536 % 256) (i / 16777216 % 256) ≡ i
from_to i h = omega arith

to_from :
    (a b c d : ℕ)
    → a < 256
    → b < 256
    → c < 256
    → d < 256
    → to_le_bytes (from_le_bytes a b c d) ≡ a ∷ b ∷ c ∷ d ∷ []
to_from a b c d ha hb hc hd = ground arith

pub verify-make_payload : (i n : ℕ) → i < 2 ^ 32 → verify_payload (make_payload i n) ≡ true
unfolding verify_payload make_payload
verify-make_payload i n h = rw (from_to i h) (matches-pattern_from i 0 (max n 4 - 4))

pub payload_index-make : (i n : ℕ) → i < 2 ^ 32 → payload_index (make_payload i n) ≡ some i
unfolding payload_index make_payload
payload_index-make i n h = ap some (from_to i h)

-- A payload that verifies is the one made from the index that it carries.
pub verify-is_made :
    (bs : List ℕ) (i : ℕ)
    → All IsByte bs
    → verify_payload bs ≡ true
    → payload_index bs ≡ some i
    → bs ≡ make_payload i (length bs)
unfolding verify_payload make_payload payload_index
verify-is_made [] i h v p = cc
verify-is_made (a ∷ []) i h v p = cc
verify-is_made (a ∷ b ∷ []) i h v p = cc
verify-is_made (a ∷ b ∷ c ∷ []) i h v p = cc
verify-is_made (a ∷ b ∷ c ∷ d ∷ rest) i h v p =
    let e : from_le_bytes a b c d ≡ i = cc in
    let m : rest ≡ pattern_from (from_le_bytes a b c d) 0 (length rest) = matches-eq _ 0 rest v in
    let n : max (length (a ∷ b ∷ c ∷ d ∷ rest)) 4 - 4 ≡ length rest = ground arith in
    let t = to_from a b c d h.0 h.1.0 h.1.1.0 h.1.1.1.0 in
    rw (← e)
      (rw n (ap (λ l. l ++ rest) (sym t) ∙ ap (λ l. to_le_bytes (from_le_bytes a b c d) ++ l) m))
