-- ===== src/Signaling/Http/RoomNames.antt =====
-- Which room names conformance/signaling/server/src/lib.rs accepts.
use wasi_webrtc_datachannels.Base.{
  ℕ, ◌+◌, ◌≤◌, ◌<◌, ◌≡◌, ◌↔◌, refl, sym, ap, ◌∙◌, ◌/◌, false≢true, String, Bool, true, false, List,
  [], ◌∷◌, ◌++◌, length, all, nat_eq, ◌&&◌, arith, All, Bool-cases, inl, inr, ◌⊎◌,
}
use wasi_webrtc_datachannels.Base.Text.{codes, bytes, encode, encode_all}
use wasi_webrtc_datachannels.Signaling.Http.{room_byte, valid_room_bytes, valid_room}

-- The names of conformance/signaling/PROTOCOL.md, on code points: `[A-Za-z0-9._-]{1,128}`.
abbrev pub IsRoomChar : ℕ → Type 0
IsRoomChar c =
    ((48 ≤ c) × (c ≤ 57))
    ⊎ (((65 ≤ c) × (c ≤ 90)) ⊎ (((97 ≤ c) × (c ≤ 122)) ⊎ ((c ≡ 46) ⊎ ((c ≡ 95) ⊎ (c ≡ 45)))))

abbrev pub RoomName : List ℕ → Type 0
RoomName cs = (1 ≤ length cs) × (length cs ≤ 128) × All IsRoomChar cs

room_byte-IsRoomChar : (c : ℕ) → room_byte c ≡ true → IsRoomChar c
unfolding room_byte
room_byte-IsRoomChar c h =
    ground (arith, nat_eq.eq_iff c 46, nat_eq.eq_iff c 95, nat_eq.eq_iff c 45)

IsRoomChar-room_byte : (c : ℕ) → IsRoomChar c → room_byte c ≡ true
unfolding room_byte
IsRoomChar-room_byte c h =
    ground (arith, nat_eq.eq_iff c 46, nat_eq.eq_iff c 95, nat_eq.eq_iff c 45)

room_byte-lt : (b : ℕ) → room_byte b ≡ true → b < 128
unfolding room_byte
room_byte-lt b h = ground arith

room_byte_high : (b : ℕ) → 128 ≤ b → room_byte b ≡ false
unfolding room_byte
room_byte_high b h = ground arith

and_parts : (a b : Bool) → (a && b) ≡ true → (a ≡ true) × (b ≡ true)
and_parts true true h = (refl, refl)
and_parts true false h = cc
and_parts false b h = cc

all-All : (bs : List ℕ) → all room_byte bs ≡ true → All IsRoomChar bs
all-All [] h = tt
all-All (b ∷ bs) h =
    let (good, rest) = and_parts _ _ h in (room_byte-IsRoomChar b good, all-All bs rest)

All-all : (bs : List ℕ) → All IsRoomChar bs → all room_byte bs ≡ true
All-all [] h = refl
All-all (b ∷ bs) h = rw (IsRoomChar-room_byte b (h.0)) (All-all bs (h.1))

-- A code point that is not ASCII has a byte that no room name holds.
encode_other : (c : ℕ) → room_byte c ≡ false → all room_byte (encode c) ≡ false
unfolding encode
encode_other c h = ground (
  arith,
  room_byte_high (192 + c / 64),
  room_byte_high (224 + c / 4096),
  room_byte_high (240 + c / 262144),
)

encode_same : (c : ℕ) → room_byte c ≡ true → encode c ≡ c ∷ []
unfolding encode
encode_same c h = ground (arith, room_byte-lt c)

all-append : (xs ys : List ℕ) → all room_byte (xs ++ ys) ≡ (all room_byte xs && all room_byte ys)
all-append [] ys = refl
all-append (x ∷ xs) ys = ground (arith, all-append xs ys)

-- Where every byte may stand in a room name, the bytes are the characters.
bytes_same : (cs : List ℕ) → all room_byte (encode_all cs) ≡ true → encode_all cs ≡ cs
unfolding encode_all
bytes_same [] h = refl
bytes_same (c ∷ cs) h = elim (Bool-cases (room_byte c)) [
  | inl good ↦
      let e = encode_same c good in
      rw e (ap (λ l. c ∷ l) (bytes_same cs ((and_parts _ _ (rw e at h)).1)))
  | inr other ↦ absurd (
      false≢true (
        sym (encode_other c other)
        ∙ (and_parts _ _ (sym (all-append (encode c) (encode_all cs)) ∙ h)).0))
]

chars_bytes : (cs : List ℕ) → all room_byte cs ≡ true → encode_all cs ≡ cs
unfolding encode_all
chars_bytes [] h = refl
chars_bytes (c ∷ cs) h =
    let (good, rest) = and_parts _ _ h in
    rw (encode_same c good) (ap (λ l. c ∷ l) (chars_bytes cs rest))

-- `valid_room`, which looks at bytes, accepts exactly the names that the protocol allows.
pub valid_room_iff : (room : String) → (valid_room room ≡ true) ↔ RoomName (codes room)
unfolding valid_room
valid_room_iff room = (
  λ h.
      let (n, b, a) = parts (bytes room) h in
      let e = bytes_same (codes room) a in
      let a' = all-All (codes room) (rw e at a) in
      (omega (arith, n, ap (length {A = ℕ}) e), omega (arith, b, ap (length {A = ℕ}) e), a'),
  λ (n, b, a).
      let a' = All-all (codes room) a in
      let e = chars_bytes (codes room) a' in rw e (whole (codes room) n b a'),
)
  where
    parts :
        (bs : List ℕ)
        → valid_room_bytes bs ≡ true
        → (1 ≤ length bs) × (length bs ≤ 128) × (all room_byte bs ≡ true)
    parts bs h = ground arith

    whole :
        (bs : List ℕ)
        → 1 ≤ length bs
        → length bs ≤ 128
        → all room_byte bs ≡ true
        → valid_room_bytes bs ≡ true
    whole bs n b a = ground arith
