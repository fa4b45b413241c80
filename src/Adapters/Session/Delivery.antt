-- ===== src/Adapters/Session/Delivery.antt =====
-- The mailbox clients against the signaling server.
use wasi_webrtc_datachannels.Base.{
  ℕ, zero, suc, ◌+◌, ◌%◌, ◌^◌, ◌<◌, ◌≤◌, ◌≡◌, ◌≢◌, refl, ap, sym, ◌∙◌, true, Option, none, some,
  String, [], ◌∷◌, ◌++◌, subst, length, get_elem?, drop, get_elem?-some_lt, drop-le_nil, drop-cons,
  arith,
}
use wasi_webrtc_datachannels.Guest.Provider.{Result, ok, err}
use wasi_webrtc_datachannels.Signaling.Mailbox.{Role, Blob, Fetch, Mailbox, peek}
use wasi_webrtc_datachannels.Adapters.Session.{
  MailboxSession, open_session, Outcome, Next, wasmtime_next, wasip3_next, Answers, Received, act,
  recv, go_on, receive_all,
}
use wasi_webrtc_datachannels.Adapters.Session.Served.{
  step_of, IsClient, wasmtime-IsClient, wasip3-IsClient, IsServed, Good, AllGood, peek-blob,
  peek-done, pending_open, copies, itself, IsBefore,
}

module _ (next : Outcome → Next) (client : IsClient next) (last : Mailbox)
    (small : length last.blobs < 2 ^ 64) where
  acted :
      (f : Fetch) (m : Mailbox) (s : MailboxSession) (rest : Answers) (again : Received)
      → IsBefore last m
      → peek m s.recv_seq ≡ f
      → IsServed last rest
      → AllGood last s.recv_seq again
      → AllGood last s.recv_seq (act next (step_of f) s rest again)
  acted (Fetch.blob b) m s rest again v e w g =
      let found = peek-blob last m s.recv_seq b v e in
      ((found, omega (arith, get_elem?-some_lt last.blobs s.recv_seq found)), w)
  acted Fetch.done m s rest again v e w g = ((peek-done last m s.recv_seq v e, refl), w)
  acted Fetch.pending m s rest again v e w g = g

  recv-AllGood :
      (l : Answers) (s : MailboxSession) → IsServed last l → AllGood last s.recv_seq (recv next l s)
  unfolding recv
  recv-AllGood [] s v = tt
  recv-AllGood (a ∷ rest) s v =
      rw (ap (λ (g : ℕ → Outcome). next (g s.recv_seq)) v.0.2 ∙ client v.0.0 s.recv_seq) (
        acted (peek v.0.0 s.recv_seq) v.0.0 s rest (recv next rest s) v.0.1 refl v.1
          (recv-AllGood rest s v.1))

  -- A call of `recv` that has returned, with what is left of the answers.
  record Ends (l : Answers) (j : ℕ) (s : MailboxSession) : Type 0 where
    result : Result (Option Blob)
    session : MailboxSession
    later : Answers
    left : ℕ
    returns :
        recv next (l ++ copies last (suc j)) s ≡ some (result, session, later ++ copies last left)
    enough : j ≤ left
    served : IsServed last later

  act_ends :
      (f : Fetch) (s : MailboxSession)
      → f ≢ Fetch.pending
      → (r : Result (Option Blob)) × (t : MailboxSession) × ((rest : Answers) (again : Received)
          → act next (step_of f) s rest again ≡ some (r, t, rest))
  act_ends (Fetch.blob b) s h =
      (ok (some b), record s { recv_seq = (s.recv_seq + 1) % 2 ^ 64 }, λ rest again. refl)
  act_ends Fetch.done s h = (ok none, s, λ rest again. refl)
  act_ends Fetch.pending s h = absurd (h refl)

  module _ (closed : last.done ≡ true) where
    last-ne-pending : (n : ℕ) → peek last n ≢ Fetch.pending
    unfolding peek
    last-ne-pending n h = pending_open (get_elem? last.blobs n) last.done closed h

    recv-copies : (j : ℕ) (s : MailboxSession) → Ends [] j s
    unfolding recv act_ends
    recv-copies j s =
        let q = act_ends (peek last s.recv_seq) s (last-ne-pending s.recv_seq) in
        record {
          result = q.0;
          session = q.1;
          later = [];
          left = j;
          returns = rw (client last s.recv_seq) (q.2 (copies last j) (recv next (copies last j) s));
          enough = omega arith;
          served = tt;
        }

    recv-ends : (l : Answers) (j : ℕ) (s : MailboxSession) → IsServed last l → Ends l j s
    unfolding recv
    recv-ends [] j s v = recv-copies j s
    recv-ends (a ∷ l) j s v =
        first (peek v.0.0 s.recv_seq)
          (ap (λ (g : ℕ → Outcome). next (g s.recv_seq)) v.0.2 ∙ client v.0.0 s.recv_seq)
          (recv-ends l j s v.1)
      where
        first : (f : Fetch) → next (a s.recv_seq) ≡ step_of f → Ends l j s → Ends (a ∷ l) j s
        first (Fetch.blob b) e rest = record {
          result = ok (some b);
          session = record s { recv_seq = (s.recv_seq + 1) % 2 ^ 64 };
          later = l;
          left = suc j;
          returns = rw e refl;
          enough = omega arith;
          served = v.1;
        }
        first Fetch.done e rest = record {
          result = ok none;
          session = s;
          later = l;
          left = suc j;
          returns = rw e refl;
          enough = omega arith;
          served = v.1;
        }
        first Fetch.pending e rest = record {
          result = rest.result;
          session = rest.session;
          later = rest.later;
          left = rest.left;
          returns = rw e rest.returns;
          enough = rest.enough;
          served = rest.served;
        }

    copies-IsServed : (j : ℕ) → IsServed last (copies last j)
    copies-IsServed zero = tt
    copies-IsServed (suc j) = ((last, itself, refl), copies-IsServed j)

    append-IsServed : (l k : Answers) → IsServed last l → IsServed last k → IsServed last (l ++ k)
    append-IsServed [] k v w = w
    append-IsServed (a ∷ l) k v w = (v.0, append-IsServed l k v.1 w)

    -- What remains is received, one blob with each call, and then the end.
    abbrev Rest : ℕ → Type 0
    Rest d =
        (l : Answers) (j : ℕ) (s : MailboxSession)
        → IsServed last l
        → d ≤ j
        → s.recv_seq + d ≡ length last.blobs
        → receive_all next (suc d) (l ++ copies last (suc j)) s ≡ some (drop s.recv_seq last.blobs)

    abbrev After : ℕ → Result (Option Blob) → Type 0
    After d r =
        (t : MailboxSession) (l : Answers) (j n : ℕ)
        → IsServed last l
        → d ≤ j
        → Good last r n t.recv_seq
        → n + d ≡ length last.blobs
        → go_on next (some (r, t, l ++ copies last j)) (receive_all next d)
          ≡ some (drop n last.blobs)

    last-After : (r : Result (Option Blob)) → After zero r
    unfolding receive_all
    last-After (err e) t l j n w le g eq = absurd g
    last-After (ok none) t l j n w le g eq = ap some (sym (drop-le_nil last.blobs n g.0))
    last-After (ok (some b)) t l j n w le g eq =
        absurd (omega (arith, get_elem?-some_lt last.blobs n g.0))

    one-After : (d : ℕ) → Rest d → (r : Result (Option Blob)) → After (suc d) r
    one-After d ih (err e) t l j n w le g eq = absurd g
    one-After d ih (ok none) t l j n w le g eq = absurd (omega (arith, g.0))
    one-After d ih (ok (some b)) t l zero n w le g eq = absurd (omega arith)
    one-After d ih (ok (some b)) t l (suc j) n w le g eq =
        rw (ih l j t w (omega arith) (omega (arith, g.1)))
          (rw g.1 (ap some (sym (drop-cons last.blobs n g.0))))

    received-After : (d : ℕ) → ((r : Result (Option Blob)) → After d r) → Rest d
    unfolding receive_all
    received-After d k l j s v more eq =
        let e = recv-ends l j s v in
        let g =
          recv-AllGood (l ++ copies last (suc j)) s
            (append-IsServed l (copies last (suc j)) v (copies-IsServed (suc j))) in
        rw e.returns (
          k e.result e.session e.later e.left s.recv_seq e.served (omega (arith, e.enough))
            (subst (AllGood last s.recv_seq) e.returns g).0 eq)

    receive-Rest : (d : ℕ) → Rest d
    receive-Rest zero = received-After zero last-After
    receive-Rest (suc d) = received-After (suc d) (one-After d (receive-Rest d))

-- Either client, once the peer's mailbox is done, receives the blobs of that mailbox, all of them, each
-- once and in order, and then the end: however many of its fetches were answered before from states
-- that the mailbox had on its way, with blobs or with nothing yet, the answers of the last state, one
-- more than there are blobs, are enough.
pub receive_all-delivers :
    (last : Mailbox) (before : Answers) (server room : String) (role : Role)
    → last.done ≡ true
    → length last.blobs < 2 ^ 64
    → IsServed last before
    → let calls = suc (length last.blobs) in
      let s = open_session server room role in
      (receive_all wasmtime_next calls (before ++ copies last calls) s ≡ some last.blobs)
      × (receive_all wasip3_next calls (before ++ copies last calls) s ≡ some last.blobs)
unfolding open_session
receive_all-delivers last before server room role closed small v =
    let s = open_session server room role in
    let n = length last.blobs in
    let e : 0 + n ≡ n = omega arith in
    (
      receive-Rest wasmtime_next wasmtime-IsClient last small closed n before n s v (omega arith) e,
      receive-Rest wasip3_next wasip3-IsClient last small closed n before n s v (omega arith) e,
    )
