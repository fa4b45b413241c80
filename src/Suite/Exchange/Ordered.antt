-- ===== src/Suite/Exchange/Ordered.antt =====
-- What the checks on received payloads accept.
use wasi_webrtc_datachannels.Base.{
  ℕ, suc, ◌+◌, ◌≤◌, ◌^◌, ◌≡◌, ◌↔◌, refl, ap, ◌∙◌, true, some, Option-cases, inl, inr, List, [], ◌∷◌,
  length, All, nat_eq, arith,
}
use wasi_webrtc_datachannels.Suite.Payload.{make_payload, payload_index, verify_payload}
use wasi_webrtc_datachannels.Suite.Payload.Laws.{
  IsByte, verify-make_payload, payload_index-make, verify-is_made,
}
use wasi_webrtc_datachannels.Suite.Calls.{ok}
use wasi_webrtc_datachannels.Suite.Exchange.{
  verify_each, verify_all, verify_indices, verify_ordered,
}

-- Each message is the payload of its place, at whatever size.
abbrev pub IsSequence : ℕ → List (List ℕ) → Type 0
IsSequence k [] = Unit
IsSequence k (b ∷ bs) = ((n : ℕ) × (b ≡ make_payload k n)) × IsSequence (suc k) bs

pub each_indexed :
    (k : ℕ) (bs : List (List ℕ))
    → k + length bs ≤ 2 ^ 32
    → IsSequence k bs
    → (verify_each bs ≡ ok tt) × (verify_indices k bs ≡ ok tt)
unfolding verify_each verify_indices
each_indexed k [] h q = (refl, refl)
each_indexed k (b ∷ bs) h q =
    let v = verify-make_payload k q.0.0 (omega arith) in
    let p = payload_index-make k q.0.0 (omega arith) in
    let r = each_indexed (suc k) bs (omega arith) q.1 in
    (rw (q.0.1) (rw v r.0), rw (q.0.1) (rw p (ground (arith, nat_eq.eq_iff k k, r.1))))

indexed_each :
    (k : ℕ) (bs : List (List ℕ))
    → All (All IsByte) bs
    → verify_each bs ≡ ok tt
    → verify_indices k bs ≡ ok tt
    → IsSequence k bs
unfolding verify_each verify_indices
indexed_each k [] h v p = tt
indexed_each k (b ∷ bs) h v p = elim (Option-cases (payload_index b)) [
  | inl e ↦ absurd (ground arith)
  | inr (i, e) ↦
      let t : verify_payload b ≡ true = ground arith in
      let j : i ≡ k = ground (arith, nat_eq.eq_iff i k) in
      let m = verify-is_made b k h.0 t (e ∙ ap some j) in
      (
        (length b, m),
        indexed_each (suc k) bs h.1 (ground arith) (ground (arith, nat_eq.eq_iff i k)),
      )
]

-- The check of the test `ordering` accepts what was received exactly if it is as many messages as
-- were asked for and the message at each place is the payload that is made for that place, of some
-- size; the messages are byte vectors, and at most 2 ^ 32 of them.
pub verify_ordered_iff :
    (received : List (List ℕ)) (count : ℕ)
    → All (All IsByte) received
    → length received ≤ 2 ^ 32
    → (verify_ordered received count ≡ ok tt) ↔ ((length received ≡ count) × IsSequence 0 received)
unfolding verify_ordered verify_all
verify_ordered_iff received count h small = (
  λ e.
      let n : length received ≡ count = ground (arith, nat_eq.eq_iff (length received) count) in
      let v : verify_each received ≡ ok tt = ground arith in
      let p : verify_indices 0 received ≡ ok tt = ground arith in
      (n, indexed_each 0 received h v p),
  λ q.
      let r = each_indexed 0 received (omega arith) q.1 in
      ground (arith, nat_eq.eq_iff (length received) count, q.0, r.0, r.1),
)
