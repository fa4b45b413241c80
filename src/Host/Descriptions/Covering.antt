-- ===== src/Host/Descriptions/Covering.antt =====
-- An offer of wasmtime-impl/src/peer_connection.rs covers the channels that were created before it.
use wasi_webrtc_datachannels.Base.{
  ℕ, suc, ◌+◌, ◌-◌, ◌%◌, ◌^◌, ◌<◌, ◌≤◌, ◌≡◌, refl, ap, ◌⊎◌, inl, inr, Bool-cases, some, String,
  List, [], ◌∷◌, ◌++◌, length, length-append, All, ◌==◌, nat_eq, arith,
}
use wasi_webrtc_datachannels.Guest.Connection.{DcConfig, Called}
use wasi_webrtc_datachannels.Host.Connection.{Built, building, built, unbuilt}
use wasi_webrtc_datachannels.Host.Channel.{ok}
use wasi_webrtc_datachannels.Host.Descriptions.{
  RtcConnection, Task, queued, created, ended, Negotiation, create_data_channel, end_pending,
  advance_task, advance, run_task, once_settled, create_offer, create_answer,
}

abbrev pub is_open : Task → ℕ
is_open (ended r) = 0
is_open t = 1

abbrev pub count_open : List Task → ℕ
count_open [] = 0
count_open (t ∷ ts) = is_open t + count_open ts

abbrev pub HasEnded : Task → Type 0
HasEnded (ended r) = Unit
HasEnded t = ⊥

open_bound : (ts : List Task) → count_open ts ≤ length ts
open_bound [] = omega arith
open_bound (queued c ∷ ts) = ground (arith, open_bound ts)
open_bound (created r ∷ ts) = ground (arith, open_bound ts)
open_bound (ended r ∷ ts) = ground (arith, open_bound ts)

none_open : (ts : List Task) → count_open ts ≡ 0 → All HasEnded ts
none_open [] e = tt
none_open (queued c ∷ ts) e = absurd (omega arith)
none_open (created r ∷ ts) e = absurd (omega arith)
none_open (ended r ∷ ts) e = (tt, none_open ts (omega arith))

-- What may happen to a connection, in any order: a channel is created, a task moves on, the build ends,
-- or the `webrtc` crate works on its side.
pub data Step (Wire : Type 0) : Type 0 where
  creates : DcConfig → Step Wire
  runs : ℕ → Step Wire
  builds : Built → Step Wire
  works : (Wire → Wire) → Step Wire

count_open-append : (xs ys : List Task) → count_open (xs ++ ys) ≡ count_open xs + count_open ys
count_open-append [] ys = omega arith
count_open-append (x ∷ xs) ys = ground (arith, count_open-append xs ys)

module _ {Wire : Type 0} (rtc : RtcConnection Wire) where
  unfoldable pub step : Negotiation Wire → Step Wire → Negotiation Wire
  step n (creates config) = create_data_channel config n
  step n (runs i) = run_task rtc i n
  step n (builds b) = record n { built = b }
  step n (works f) = record n { wire = f n.wire }

  unfoldable pub run : Negotiation Wire → List (Step Wire) → Negotiation Wire
  unfolding step
  run n [] = n
  run n (s ∷ ss) = run (step n s) ss

  task-count :
      (b : Built) (why : String) (w : Wire) (k m : ℕ) (t : Task)
      → k ≡ (m + is_open t) % 2 ^ 64
      → (advance_task rtc b why w k t).1 ≡ (m + is_open (advance_task rtc b why w k t).0.0) % 2 ^ 64
  unfolding advance_task end_pending
  task-count building why w k m (queued config) e = e
  task-count unbuilt why w k m (queued config) e = e
  task-count built why w k m (queued config) e = e
  task-count building why w k m (created r) e = omega arith
  task-count unbuilt why w k m (created r) e = omega arith
  task-count built why w k m (created r) e = omega arith
  task-count building why w k m (ended r) e = e
  task-count unbuilt why w k m (ended r) e = e
  task-count built why w k m (ended r) e = e

  advance-count :
      (b : Built) (why : String) (w : Wire) (k m i : ℕ) (ts : List Task)
      → k ≡ (m + count_open ts) % 2 ^ 64
      → ((advance rtc b why w k i ts).1
          ≡ (m + count_open (advance rtc b why w k i ts).0.0) % 2 ^ 64)
        × (length (advance rtc b why w k i ts).0.0 ≡ length ts)
  unfolding advance
  advance-count b why w k m i [] e = (e, refl)
  advance-count b why w k m i (t ∷ ts) e = elim (Bool-cases (i == 0)) [
    | inl h ↦
        let u = advance_task rtc b why w k t in
        let c = task-count b why w k (m + count_open ts) t (ground (arith, e)) in
        rw h (ground (arith, c), refl)
    | inr h ↦
        let rest = advance-count b why w k (m + is_open t) (i - 1) ts (ground (arith, e)) in
        rw h (ground (arith, rest.0), ap suc rest.1)
  ]

  abbrev made : Step Wire → ℕ
  made (creates config) = 1
  made s = 0

  abbrev pub channels : List (Step Wire) → ℕ
  channels [] = 0
  channels (s ∷ ss) = made s + channels ss

  -- The count is the number of the tasks that have not ended, modulo the word.
  abbrev IsCounted : ℕ → Negotiation Wire → Type 0
  IsCounted k n = (n.pending ≡ count_open n.tasks % 2 ^ 64) × (length n.tasks ≡ k)

  step-IsCounted :
      (s : Step Wire) (n : Negotiation Wire) (k : ℕ)
      → IsCounted k n
      → IsCounted (k + made s) (step n s)
  unfolding step create_data_channel run_task
  step-IsCounted (creates config) n k g = (
    rw (count_open-append n.tasks (queued config ∷ [])) (ground (arith, g.0)),
    rw (length-append n.tasks (queued config ∷ [])) (omega (arith, g.1)),
  )
  step-IsCounted (runs i) n k g =
      let a = advance-count n.built n.reason n.wire n.pending 0 i n.tasks (ground (arith, g.0)) in
      (ground (arith, a.0), ground (arith, a.1, g.1))
  step-IsCounted (builds b) n k g = (g.0, ground (arith, g.1))
  step-IsCounted (works f) n k g = (g.0, ground (arith, g.1))

  run-IsCounted :
      (ss : List (Step Wire)) (n : Negotiation Wire) (k : ℕ)
      → IsCounted k n
      → IsCounted (k + channels ss) (run n ss)
  unfolding run
  run-IsCounted [] n k g = (g.0, ground (arith, g.1))
  run-IsCounted (s ∷ ss) n k g =
      let rest = run-IsCounted ss (step n s) (k + made s) (step-IsCounted s n k g) in
      (rest.0, ground (arith, rest.1))

  abbrev pub new_negotiation : String → Wire → Negotiation Wire
  new_negotiation reason w = record {
    built = building;
    reason = reason;
    wire = w;
    tasks = [];
    pending = 0;
  }

  settled_count :
      (n : Negotiation Wire) (b : Built) (call : Wire → Called String × Wire) (sdp : String)
      → (once_settled rtc n b call).0 ≡ some (ok sdp)
      → n.pending ≡ 0
  settled_count n building call sdp e = absurd cc
  settled_count n unbuilt call sdp e = absurd cc
  settled_count n built call sdp e = ground (arith, nat_eq.eq_iff n.pending 0)

  covered :
      (reason : String) (w : Wire) (ss : List (Step Wire))
      → channels ss < 2 ^ 64
      → (run (new_negotiation reason w) ss).pending ≡ 0
      → All HasEnded (run (new_negotiation reason w) ss).tasks
        × (length (run (new_negotiation reason w) ss).tasks ≡ channels ss)
  covered reason w ss small z =
      let n = run (new_negotiation reason w) ss in
      let g = run-IsCounted ss (new_negotiation reason w) 0 (refl, refl) in
      let bound = open_bound n.tasks in
      (none_open n.tasks (ground (arith, g.0, g.1, bound)), ground (arith, g.1))

  -- Whatever steps the connection and its tasks have taken, in any order, when `create_offer` or
  -- `create_answer` produces a description: the task of each channel that was created before has ended,
  -- so that the channel is registered with the connection or has failed. Fewer than 2 ^ 64 channels
  -- are created.
  pub create_offer-HasEnded :
      (reason : String) (w : Wire) (ss : List (Step Wire)) (sdp : String)
      → channels ss < 2 ^ 64
      → ((create_offer rtc (run (new_negotiation reason w) ss)).0 ≡ some (ok sdp))
        ⊎ ((create_answer rtc (run (new_negotiation reason w) ss)).0 ≡ some (ok sdp))
      → let n = run (new_negotiation reason w) ss in
        All HasEnded n.tasks × (length n.tasks ≡ channels ss)
  unfolding create_offer create_answer
  create_offer-HasEnded reason w ss sdp small (inl e) =
      let n = run (new_negotiation reason w) ss in
      covered reason w ss small (settled_count n n.built rtc.create_offer sdp e)
  create_offer-HasEnded reason w ss sdp small (inr e) =
      let n = run (new_negotiation reason w) ss in
      covered reason w ss small (settled_count n n.built rtc.create_answer sdp e)
