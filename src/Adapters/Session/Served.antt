-- ===== src/Adapters/Session/Served.antt =====
-- What the signaling server, conformance/signaling/server/src, answers a mailbox client, and what either
-- client makes of an answer.
use wasi_webrtc_datachannels.Base.{
  ℕ, zero, suc, ◌≤◌, ◌≡◌, ◌≢◌, refl, sym, Bool, true, false, Option, none, some, List, [], ◌∷◌,
  ◌++◌, append-nil, length, get_elem?, get_elem?-append, get_elem?-none_le, All,
}
use wasi_webrtc_datachannels.Guest.Provider.{Result, ok, err}
use wasi_webrtc_datachannels.Signaling.Mailbox.{Blob, Fetch, Mailbox, classify, peek}
use wasi_webrtc_datachannels.Signaling.Http.{Body, octets, fetched}
use wasi_webrtc_datachannels.Adapters.Session.{
  Outcome, replied, Next, deliver, finish, retry, wasmtime_next, wasip3_next, Answers, Received,
}

-- The bytes of the bodies that a fetch is answered with.
abbrev body_bytes : Body → Blob
body_bytes (octets b) = b
body_bytes other = []

-- The server's answer to a fetch of `n`, from the mailbox as it stands when the poll ends.
abbrev pub reply_of : ℕ → Fetch → Outcome
reply_of n f =
    let r = fetched n f in
    replied (record { status = r.status; done = r.x_done; body = body_bytes r.body })

abbrev pub answer : Mailbox → ℕ → Outcome
answer m n = reply_of n (peek m n)

-- A mailbox on its way to a last one: its blobs are the first of those, all of them once it is done.
pub record IsBefore (last m : Mailbox) : Type 0 where
  pub more : List Blob
  pub grows : last.blobs ≡ m.blobs ++ more
  pub frozen : m.done ≡ true → last.blobs ≡ m.blobs

abbrev pub step_of : Fetch → Next
step_of (Fetch.blob b) = deliver b
step_of Fetch.done = finish
step_of Fetch.pending = retry

-- A client follows the answers of the server.
abbrev pub IsClient : (Outcome → Next) → Type 0
IsClient next = (m : Mailbox) (n : ℕ) → next (answer m n) ≡ step_of (peek m n)

wasmtime_follows : (n : ℕ) (f : Fetch) → wasmtime_next (reply_of n f) ≡ step_of f
unfolding wasmtime_next fetched
wasmtime_follows n (Fetch.blob b) = refl
wasmtime_follows n Fetch.done = refl
wasmtime_follows n Fetch.pending = refl

wasip3_follows : (n : ℕ) (f : Fetch) → wasip3_next (reply_of n f) ≡ step_of f
unfolding wasip3_next fetched
wasip3_follows n (Fetch.blob b) = refl
wasip3_follows n Fetch.done = refl
wasip3_follows n Fetch.pending = refl

pub wasmtime-IsClient : IsClient wasmtime_next
wasmtime-IsClient m n = wasmtime_follows n (peek m n)

pub wasip3-IsClient : IsClient wasip3_next
wasip3-IsClient m n = wasip3_follows n (peek m n)

-- Each request is answered from a mailbox on its way to the last one.
abbrev pub IsServed : Mailbox → Answers → Type 0
IsServed last answers = All (λ a. (m : Mailbox) × IsBefore last m × (a ≡ answer m)) answers

abbrev pub Good : Mailbox → Result (Option Blob) → ℕ → ℕ → Type 0
Good last (ok (some b)) n k = (get_elem? last.blobs n ≡ some b) × (k ≡ suc n)
Good last (ok none) n k = (length last.blobs ≤ n) × (k ≡ n)
Good last (err e) n k = ⊥

abbrev pub AllGood : Mailbox → ℕ → Received → Type 0
AllGood last n none = Unit
AllGood last n (some (r, t, out)) = Good last r n t.recv_seq × IsServed last out

classify-blob : (o : Option Blob) (d : Bool) (b : Blob) → classify o d ≡ Fetch.blob b → o ≡ some b
classify-blob none true b e = cc
classify-blob none false b e = cc
classify-blob (some c) d b e = cc

classify-done : (o : Option Blob) (d : Bool) → classify o d ≡ Fetch.done → (o ≡ none) × (d ≡ true)
classify-done none true e = (refl, refl)
classify-done none false e = cc
classify-done (some c) d e = cc

pub peek-blob :
    (last m : Mailbox) (n : ℕ) (b : Blob)
    → IsBefore last m
    → peek m n ≡ Fetch.blob b
    → get_elem? last.blobs n ≡ some b
unfolding peek
peek-blob last m n b v e =
    rw v.grows (get_elem?-append m.blobs v.more n (classify-blob (get_elem? m.blobs n) m.done b e))

pub peek-done :
    (last m : Mailbox) (n : ℕ) → IsBefore last m → peek m n ≡ Fetch.done → length last.blobs ≤ n
unfolding peek
peek-done last m n v e =
    let q = classify-done (get_elem? m.blobs n) m.done e in
    rw (v.frozen q.1) (get_elem?-none_le m.blobs n q.0)

pub pending_open : (o : Option Blob) (d : Bool) → d ≡ true → classify o d ≢ Fetch.pending
pending_open none true e h = cc
pending_open none false e h = cc
pending_open (some b) d e h = cc

-- The same answer over and over.
abbrev pub copies : Mailbox → ℕ → Answers
copies last zero = []
copies last (suc j) = answer last ∷ copies last j

pub itself : {last : Mailbox} → IsBefore last last
itself {last} = record { more = []; grows = sym (append-nil last.blobs); frozen = λ d. refl }
