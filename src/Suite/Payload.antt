-- ===== src/Suite/Payload.antt =====
-- The payloads of the conformance guest, conformance/guest/src/lib.rs: built, indexed and verified.
-- A byte is a number, and the guest's `usize` has 32 bits.
pub mod Laws
use wasi_webrtc_datachannels.Base.{
  ℕ, zero, suc, ◌+◌, ◌-◌, ◌*◌, ◌/◌, ◌%◌, ◌^◌, Bool, true, false, ◌&&◌, Option, none, some, List, [],
  ◌∷◌, ◌++◌, length, ltb, ◌==◌, nat_eq, if◌then◌else◌,
}
use wasi_webrtc_datachannels.Guest.State.{usize_add}

abbrev pub max : ℕ → ℕ → ℕ
max a b = if ltb a b then b else a

abbrev pub to_le_bytes : ℕ → List ℕ
to_le_bytes n = (n % 256) ∷ (n / 256 % 256) ∷ (n / 65536 % 256) ∷ (n / 16777216 % 256) ∷ []

abbrev pub from_le_bytes : ℕ → ℕ → ℕ → ℕ → ℕ
from_le_bytes a b c d = a + b * 256 + c * 65536 + d * 16777216

-- The byte that `make_payload` puts at an offset, and the one that `verify_payload` expects there.
abbrev pub pattern_byte : ℕ → ℕ → ℕ
pattern_byte index offset = usize_add index offset % 251

abbrev pub expected_byte : ℕ → ℕ → ℕ
expected_byte index offset = usize_add index offset % 251

-- The loop over the offsets, with the rounds left.
unfoldable pub pattern_from : ℕ → ℕ → ℕ → List ℕ
pattern_from index offset zero = []
pattern_from index offset (suc n) = pattern_byte index offset ∷ pattern_from index (suc offset) n

unfoldable pub make_payload : ℕ → ℕ → List ℕ
make_payload index size = to_le_bytes index ++ pattern_from index 0 (max size 4 - 4)

unfoldable pub payload_index : List ℕ → Option ℕ
payload_index (a ∷ b ∷ c ∷ d ∷ rest) = some (from_le_bytes a b c d)
payload_index (a ∷ b ∷ c ∷ []) = none
payload_index (a ∷ b ∷ []) = none
payload_index (a ∷ []) = none
payload_index [] = none

unfoldable pub matches_from : ℕ → ℕ → List ℕ → Bool
matches_from index offset [] = true
matches_from index offset (b ∷ bs) =
    b == expected_byte index offset && matches_from index (suc offset) bs

unfoldable pub verify_payload : List ℕ → Bool
verify_payload (a ∷ b ∷ c ∷ d ∷ rest) = matches_from (from_le_bytes a b c d) 0 rest
verify_payload (a ∷ b ∷ c ∷ []) = false
verify_payload (a ∷ b ∷ []) = false
verify_payload (a ∷ []) = false
verify_payload [] = false
