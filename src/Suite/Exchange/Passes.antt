-- ===== src/Suite/Exchange/Passes.antt =====
-- The exchanges over a channel that loses nothing and keeps the order.
use wasi_webrtc_datachannels.Base.{
  ℕ, zero, suc, ◌≤◌, ◌^◌, ◌≡◌, refl, ap, ◌∙◌, true, some, List, [], ◌∷◌, ◌++◌, map, append_assoc,
  append-nil, length, nat_eq, string_eq, ==_refl, arith,
}
use wasi_webrtc_datachannels.Guest.Provider.{Message, binary, string, Result}
use wasi_webrtc_datachannels.Suite.Payload.{max, make_payload}
use wasi_webrtc_datachannels.Suite.Calls.{ok, Checked, Calls}
use wasi_webrtc_datachannels.Suite.Exchange.{
  channel_label, same, TestConfig, send_sequence, recv_sequence, verify_all, verify_ordered,
  Exchange, label_round_trip, binary_message, text_message, zero_length_message, large_message,
  max_retransmits_accepted, counted, ordering, other, echo, text_bytes, exchange_as,
  send_and_receive, zero_length, judge_binary, judge_text, judge_bytes, judge_empty_text,
}
use wasi_webrtc_datachannels.Suite.Exchange.Ordered.{IsSequence, each_indexed}

-- The payloads of a sequence.
abbrev pub made : ℕ → ℕ → ℕ → List (List ℕ)
made zero index size = []
made (suc n) index size = make_payload index size ∷ made n (suc index) size

-- What each side of an exchange sends, which is what the other side waits for.
abbrev pub payloads : Exchange → TestConfig → List Message
payloads label_round_trip config = []
payloads binary_message config = binary (0 ∷ 1 ∷ 2 ∷ 3 ∷ 4 ∷ 5 ∷ []) ∷ []
payloads text_message config = string text_bytes ∷ []
payloads zero_length_message config = binary [] ∷ string [] ∷ []
payloads large_message config = binary (make_payload 0 (max config.message_size 1024)) ∷ []
payloads max_retransmits_accepted config = binary (9 ∷ 8 ∷ 7 ∷ 6 ∷ []) ∷ []
payloads counted config =
    map binary (made (max config.message_count 1) 0 (max config.message_size 16))
payloads ordering config =
    map binary (made (max config.message_count 1) 0 (max config.message_size 16))
payloads (other test_id) config = []

abbrev pub IsHandled : Exchange → Type 0
IsHandled (other test_id) = ⊥
IsHandled e = Unit

-- Sends that all succeed, and messages that all arrive, before what comes after them.
abbrev pub sending : List Message → List (Result (Unit {0})) → List (Result (Unit {0}))
sending ms rest = map (λ m. Result.ok tt) ms ++ rest

abbrev pub arriving : List Message → List (Result Message) → List (Result Message)
arriving ms rest = map Result.ok ms ++ rest

abbrev pub calls : List (Result (Unit {0})) → List (Result Message) → List Message → Calls
calls ss rs log = record { sends = ss; receives = rs; sent = log }

pub same_refl : (xs : List ℕ) → same xs xs ≡ true
unfolding same
same_refl [] = refl
same_refl (x ∷ xs) = rw (==_refl x) (same_refl xs)

length-made : (n i s : ℕ) → length (made n i s) ≡ n
length-made zero i s = refl
length-made (suc n) i s = ap suc (length-made n (suc i) s)

made-IsSequence : (n i s : ℕ) → IsSequence i (made n i s)
made-IsSequence zero i s = tt
made-IsSequence (suc n) i s = ((s, refl), made-IsSequence n (suc i) s)

verify-made :
    (n s : ℕ)
    → n ≤ 2 ^ 32
    → (verify_all (made n 0 s) n ≡ ok tt) × (verify_ordered (made n 0 s) n ≡ ok tt)
unfolding verify_all verify_ordered
verify-made n s h =
    let l = length-made n 0 s in
    let r = each_indexed 0 (made n 0 s) (omega (arith, l)) (made-IsSequence n 0 s) in
    (rw (l, ==_refl n) r.0, rw (l, ==_refl n) (rw r.0 r.1))

send-made :
    (n i s : ℕ) (ss : List (Result (Unit {0}))) (rs : List (Result Message)) (log : List Message)
    → send_sequence n i s (calls (sending (map binary (made n i s)) ss) rs log)
      ≡ some (ok tt, calls ss rs (log ++ map binary (made n i s)))
unfolding send_sequence
send-made zero i s ss rs log = rw (append-nil log) refl
send-made (suc n) i s ss rs log =
    send-made n (suc i) s ss rs (log ++ binary (make_payload i s) ∷ [])
    ∙ ap (λ l. some (ok tt, calls ss rs l))
        (append_assoc log (binary (make_payload i s) ∷ []) (map binary (made n (suc i) s)))

recv-made :
    (n i s : ℕ) (out : List (List ℕ)) (ss : List (Result (Unit {0}))) (rs : List (Result Message))
    (log : List Message)
    → recv_sequence n out (calls ss (arriving (map binary (made n i s)) rs) log)
      ≡ some (ok (out ++ made n i s), calls ss rs log)
unfolding recv_sequence
recv-made zero i s out ss rs log = rw (append-nil out) refl
recv-made (suc n) i s out ss rs log =
    recv-made n (suc i) s (out ++ make_payload i s ∷ []) ss rs log
    ∙ ap (λ l. some (ok l, calls ss rs log))
        (append_assoc out (make_payload i s ∷ []) (made n (suc i) s))

module _ (ss : List (Result (Unit {0}))) (rs : List (Result Message)) (log : List Message) where
  sequence_passes :
      (n s : ℕ) (verify : List (List ℕ) → Checked (Unit {0}))
      → verify (made n 0 s) ≡ ok tt
      → send_and_receive n s verify
          (calls (sending (map binary (made n 0 s)) ss) (arriving (map binary (made n 0 s)) rs) log)
        ≡ some (ok tt, calls ss rs (log ++ map binary (made n 0 s)))
  unfolding send_and_receive
  sequence_passes n s verify v =
      rw (send-made n 0 s ss (arriving (map binary (made n 0 s)) rs) log)
        (rw (recv-made n 0 s [] ss rs (log ++ map binary (made n 0 s))) (rw v refl))

  pub passes_as :
      (e : Exchange) (config : TestConfig)
      → IsHandled e
      → max config.message_count 1 ≤ 2 ^ 32
      → exchange_as e config channel_label
          (calls (sending (payloads e config) ss) (arriving (payloads e config) rs) log)
        ≡ some (ok tt, calls ss rs (log ++ payloads e config))
  unfolding exchange_as echo judge_binary judge_text judge_bytes judge_empty_text zero_length
  passes_as label_round_trip config h c = rw (append-nil log) refl
  passes_as binary_message config h c = rw (same_refl (0 ∷ 1 ∷ 2 ∷ 3 ∷ 4 ∷ 5 ∷ [])) refl
  passes_as text_message config h c = rw (same_refl text_bytes) refl
  passes_as zero_length_message config h c = rw (same_refl []) (
      rw (append_assoc log (binary [] ∷ []) (string [] ∷ []), judge_empty_text)
        (rw (same_refl []) refl))
  passes_as large_message config h c =
      rw (same_refl (make_payload 0 (max config.message_size 1024))) refl
  passes_as max_retransmits_accepted config h c = rw (same_refl (9 ∷ 8 ∷ 7 ∷ 6 ∷ [])) refl
  passes_as counted config h c =
      let n = max config.message_count 1 in
      let s = max config.message_size 16 in
      sequence_passes n s (λ r. verify_all r n) (verify-made n s c).0
  passes_as ordering config h c =
      let n = max config.message_count 1 in
      let s = max config.message_size 16 in
      sequence_passes n s (λ r. verify_ordered r n) (verify-made n s c).1
  passes_as (other test_id) config h c = absurd h
