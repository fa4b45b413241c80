-- ===== src/Base/Decimal.antt =====
-- A number that `{}` prints reads back through `str::parse`.
use Prim.Native.String.{String, ◌++◌ as str_append}
use wasi_webrtc_datachannels.Base.Tests.{Bool-cases, ltb, ◌==◌, nat_eq}
use Prim.Native.Nat.{ℕ, zero, suc, ◌+◌, ◌-◌, ◌*◌, ◌/◌, ◌%◌, ◌^◌, ◌<◌}
use Prim.Native.Char.{code}
use mathlib.Core.Path.{◌≡◌, refl, ap, sym, ◌∙◌}
use text.Mathlib.TextLemmas.{nil-append, cons-append}
use mathlib.Core.Logic.{◌≢◌, ◌⊎◌, inl, inr}
use mathlib.Core.Option.{some}
use mathlib.Core.List.{List, [], ◌∷◌, ◌++◌, append_assoc}
use native.Mathlib.Omega.{arith}
use wasi_webrtc_datachannels.Base.Text.{
  codes, encode, encode_all, bytes, parse_digits, parse_usize, digit, decimal_from, decimal,
}

encode_all-append : (xs ys : List ℕ) → encode_all (xs ++ ys) ≡ encode_all xs ++ encode_all ys
unfolding encode_all
encode_all-append [] ys = refl
encode_all-append (x ∷ xs) ys =
    ap (λ l. encode x ++ l) (encode_all-append xs ys)
    ∙ sym (append_assoc (encode x) (encode_all xs) (encode_all ys))

codes-append : (s t : String) → codes (str_append s t) ≡ codes s ++ codes t
codes-append String.[] t = ap codes (nil-append t)
codes-append (String.◌∷◌ c s) t =
    ap codes (cons-append c s t) ∙ ap (λ l. code c ∷ l) (codes-append s t)

one_less : (d k : ℕ) → d < suc k → (d ≡ k) ⊎ (d < k)
one_less d k h = elim (Bool-cases (d == k)) [
  | inl e ↦ inl ((nat_eq.eq_iff d k).0 e)
  | inr e ↦ inr (ground (arith, nat_eq.eq_iff d k))
]

at_digit : (d k : ℕ) → d ≡ k → bytes (digit k) ≡ (b'0' + k) ∷ [] → bytes (digit d) ≡ (b'0' + d) ∷ []
at_digit d k e h = rw e h

digit-bytes : (d : ℕ) → d < 10 → bytes (digit d) ≡ (b'0' + d) ∷ []
unfolding encode_all encode
digit-bytes d h = elim (one_less d 9 h) [
  | inl e ↦ at_digit d 9 e refl
  | inr h ↦ elim (one_less d 8 h) [
    | inl e ↦ at_digit d 8 e refl
    | inr h ↦ elim (one_less d 7 h) [
      | inl e ↦ at_digit d 7 e refl
      | inr h ↦ elim (one_less d 6 h) [
        | inl e ↦ at_digit d 6 e refl
        | inr h ↦ elim (one_less d 5 h) [
          | inl e ↦ at_digit d 5 e refl
          | inr h ↦ elim (one_less d 4 h) [
            | inl e ↦ at_digit d 4 e refl
            | inr h ↦ elim (one_less d 3 h) [
              | inl e ↦ at_digit d 3 e refl
              | inr h ↦ elim (one_less d 2 h) [
                | inl e ↦ at_digit d 2 e refl
                | inr h ↦ elim (one_less d 1 h) [
                  | inl e ↦ at_digit d 1 e refl
                  | inr h ↦ elim (one_less d 0 h) [
                    | inl e ↦ at_digit d 0 e refl
                    | inr h ↦ absurd (omega arith)
                  ]
                ]
              ]
            ]
          ]
        ]
      ]
    ]
  ]
]

-- A digit more at the end.
parse_digits-append :
    (w acc : ℕ) (bs : List ℕ) (v d : ℕ)
    → parse_digits w acc bs ≡ some v
    → d < 10
    → v * 10 + d < 2 ^ w
    → parse_digits w acc (bs ++ (b'0' + d) ∷ []) ≡ some (v * 10 + d)
unfolding parse_digits
parse_digits-append w acc [] v d e h k = ground arith
parse_digits-append w acc (b ∷ bs) v d e h k =
    ground (arith, parse_digits-append w (acc * 10 + (b - b'0')) bs v d)

-- What a number prints as: some bytes and a last one, which read back as the number.
abbrev Reads : ℕ → ℕ → List ℕ → Type 0
Reads w n bs = ((xs : List ℕ) × (y : ℕ) × (bs ≡ xs ++ y ∷ [])) × (parse_digits w 0 bs ≡ some n)

digit-Reads : (w n : ℕ) → n < 10 → n < 2 ^ w → Reads w n ((b'0' + n) ∷ [])
unfolding parse_digits
digit-Reads w n h k = (([], b'0' + n, refl), ground arith)

decimal_from-Reads : (w f n : ℕ) → n < f → n < 2 ^ w → Reads w n (bytes (decimal_from f n))
unfolding decimal_from
decimal_from-Reads w zero n h k = absurd (omega arith)
decimal_from-Reads w (suc f) n h k = elim (Bool-cases (ltb n 10)) [
  | inl e ↦
      let small : n < 10 = ground arith in rw e (rw (digit-bytes n small) (digit-Reads w n small k))
  | inr e ↦
      let front = decimal_from f (n / 10) in
      let d = n % 10 in
      let rest = decimal_from-Reads w f (n / 10) (ground arith) (ground arith) in
      let b : bytes (str_append front (digit d)) ≡ bytes front ++ (b'0' + d) ∷ [] =
        ap encode_all (codes-append front (digit d))
        ∙ encode_all-append (codes front) (codes (digit d))
        ∙ ap (λ l. bytes front ++ l) (digit-bytes d (omega arith)) in
      let whole : n / 10 * 10 + d ≡ n = omega arith in
      rw e (
        rw b (
          (bytes front, b'0' + d, refl),
          parse_digits-append w 0 (bytes front) (n / 10) d rest.1 (omega arith)
                (ground (arith, whole, k))
              ∙ ap some whole,
        ))
]

no_plus : (w v x : ℕ) (bs : List ℕ) → x ≡ b'+' → parse_digits w 0 (x ∷ bs) ≢ some v
unfolding parse_digits
no_plus w v x bs h e = ground arith

parse_usize-digits :
    (w v y : ℕ) (xs : List ℕ)
    → parse_digits w 0 (xs ++ y ∷ []) ≡ some v
    → parse_usize w (xs ++ y ∷ []) ≡ some v
unfolding parse_usize parse_digits
parse_usize-digits w v y [] e = e
parse_usize-digits w v y (x ∷ []) e = elim (Bool-cases (x == b'+')) [
  | inl h ↦ absurd (no_plus w v x (y ∷ []) ((nat_eq.eq_iff x b'+').0 h) e)
  | inr h ↦ rw h e
]
parse_usize-digits w v y (x ∷ z ∷ xs) e = elim (Bool-cases (x == b'+')) [
  | inl h ↦ absurd (no_plus w v x (z ∷ (xs ++ y ∷ [])) ((nat_eq.eq_iff x b'+').0 h) e)
  | inr h ↦ rw h e
]

-- A number that fits its word reads back from its decimal digits.
pub parse_usize-decimal : (w n : ℕ) → n < 2 ^ w → parse_usize w (bytes (decimal n)) ≡ some n
unfolding decimal
parse_usize-decimal w n k =
    let r = decimal_from-Reads w (suc n) n (omega arith) k in
    rw r.0.2 (parse_usize-digits w n r.0.1 r.0.0 (ap (parse_digits w 0) (sym r.0.2) ∙ r.1))
