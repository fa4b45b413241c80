-- ===== src/Guest/Provider/Streaming.antt =====
-- `send_via_stream` and `drain_stream` of wasip3-impl/src/provider.rs. A payload stream is the list of
-- the bytes that are written to it before it is dropped; a read takes what is there, at most what it
-- asks for, and is taken here byte by byte. The states in which the turns find the channel are given.
use wasi_webrtc_datachannels.Base.{
  ℕ, zero, suc, ◌+◌, ◌%◌, ◌^◌, ◌≤◌, ◌≡◌, sym, ◌∙◌, Bool, true, false, ◌&&◌, not, List, [], ◌∷◌,
  ◌++◌, append_assoc, append-nil, length, take, length-append, leb, ◌==◌, nat_eq, if◌then◌else◌,
  arith,
}
use wasi_webrtc_datachannels.Base.Utf8.{from_utf8_lossy}
use wasi_webrtc_datachannels.Guest.Provider.{Error, Result, ok, err, Message, binary, string}

unfoldable pub drain_stream : ℕ → List ℕ → List ℕ → List ℕ
drain_stream len out [] = out
drain_stream len out (b ∷ bs) =
    let rest = drain_stream len (out ++ b ∷ []) bs in
    if not (len == 0) && leb len (length out) then out else rest

pub record StreamMessage : Type 0 where
  pub is_text : Bool
  pub length : ℕ
  pub bytes : List ℕ

unfoldable pub drained : StreamMessage → Message
drained m =
    let out = drain_stream m.length [] m.bytes in
    if m.is_text then string (from_utf8_lossy out) else binary out

pub data Streamed : Type 0 where
  all_sent : Streamed
  stopped : Error → ℕ → Streamed

module _ {Peer : Type 0} (when_open : Peer → Message → Result (Unit {0}) × Peer) where
  counted : ℕ → Result (Unit {0}) × Peer → Streamed × Peer → Streamed × Peer
  counted sent (ok u, p) rest = rest
  counted sent (err e, p) rest = (stopped e sent, p)

  unfoldable pub send_via_stream : Peer → ℕ → List StreamMessage → Streamed × Peer
  unfolding counted
  send_via_stream p sent [] = (all_sent, p)
  send_via_stream p sent (m ∷ ms) =
      let r = when_open p (drained m) in
      let rest = send_via_stream r.1 ((sent + 1) % 2 ^ 64) ms in counted sent r rest

-- With no declared length all bytes are read.
drain_stream-zero : (out bs : List ℕ) → drain_stream 0 out bs ≡ out ++ bs
unfolding drain_stream
drain_stream-zero out [] = sym (append-nil out)
drain_stream-zero out (b ∷ bs) = drain_stream-zero (out ++ b ∷ []) bs ∙ append_assoc out (b ∷ []) bs

-- While fewer are read than declared, at most the rest is.
drain_stream-suc :
    (len left : ℕ) (out bs : List ℕ)
    → length out + left ≡ len
    → 1 ≤ len
    → drain_stream len out bs ≡ out ++ take left bs
unfolding drain_stream
drain_stream-suc len zero out [] e h = sym (append-nil out)
drain_stream-suc len (suc left) out [] e h = sym (append-nil out)
drain_stream-suc len zero out (b ∷ bs) e h =
    let stop : (not (len == 0) && leb len (length out)) ≡ true = ground (arith, e, h) in
    rw stop (sym (append-nil out))
drain_stream-suc len (suc left) out (b ∷ bs) e h =
    let more : (not (len == 0) && leb len (length out)) ≡ false = ground (arith, e) in
    let longer = length-append out (b ∷ []) in
    rw more (
      drain_stream-suc len left (out ++ b ∷ []) bs (omega (arith, e, longer)) h
      ∙ append_assoc out (b ∷ []) (take left bs))

-- What is sent for a message of the stream: the bytes up to the declared length, all of them if it is
-- zero. A payload that is as long as declared is sent whole; a longer one is cut off, and a shorter
-- one is sent as it is.
pub drain_stream-take :
    (len : ℕ) (bs : List ℕ) → drain_stream len [] bs ≡ (if len == 0 then bs else take len bs)
drain_stream-take zero bs = drain_stream-zero [] bs
drain_stream-take (suc n) bs =
    drain_stream-suc (suc n) (suc n) [] bs (omega arith) (omega arith) ∙ ground arith
