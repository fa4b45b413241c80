-- ===== src/Host/Streams/Forwarding.antt =====
-- What `send_via_stream` of wasmtime-impl/src/host.rs sends of a stream.
use wasi_webrtc_datachannels.Base.{
  ℕ, ◌≡◌, refl, ap, sym, ◌∙◌, Bool, true, false, none, some, List, [], ◌∷◌, ◌++◌, map, append_assoc,
  append-nil, if◌then◌else◌,
}
use wasi_webrtc_datachannels.Host.Channel.{Transport, PendingSend, send_via_stream}
use wasi_webrtc_datachannels.Host.Streams.{
  ByteCollector, finish_bytes, consume_bytes, StreamMessage, consume_chunks, collected,
  consume_messages, forward,
}

abbrev pub concat {ℓ} : {A : Type ℓ} → List (List A) → List A
concat [] = []
concat (xs ∷ xss) = xs ++ concat xss

-- A message with all its bytes.
abbrev pub whole : StreamMessage → PendingSend
whole m = record {
  is_string = m.is_string;
  length = m.length;
  payload = concat m.chunks;
  closed = m.closed;
}

consume_chunks-concat :
    (chunks : List (List ℕ)) (buf : List ℕ)
    → consume_chunks chunks (record { buf = buf; handed = none })
      ≡ record { buf = buf ++ concat chunks; handed = none }
unfolding consume_chunks consume_bytes
consume_chunks-concat [] buf = rw (append-nil buf) refl
consume_chunks-concat ([] ∷ chunks) buf = consume_chunks-concat chunks buf
consume_chunks-concat ((b ∷ bs) ∷ chunks) buf =
    consume_chunks-concat chunks (buf ++ b ∷ bs)
    ∙ ap (λ l. record { buf = l; handed = none }) (append_assoc buf (b ∷ bs) (concat chunks))

handed-whole :
    (finishes : Bool) (bs : List ℕ)
    → let c : ByteCollector = record { buf = bs; handed = none } in
      (finish_bytes (if finishes then (consume_bytes [] true c).1 else c)).handed ≡ some bs
unfolding finish_bytes consume_bytes
handed-whole true bs = refl
handed-whole false bs = refl

collected-whole : (m : StreamMessage) → collected m ≡ whole m
unfolding collected
collected-whole m =
    rw (consume_chunks-concat m.chunks []) (rw (handed-whole m.finishes (concat m.chunks)) refl)

map-whole : (ms : List StreamMessage) → map collected ms ≡ map whole ms
map-whole [] = refl
map-whole (m ∷ ms) = rw (collected-whole m, map-whole ms) refl

map-append {ℓ κ} :
    {A : Type ℓ} {B : Type κ} (f : A → B) (xs ys : List A) → map f (xs ++ ys) ≡ map f xs ++ map f ys
map-append f [] ys = refl
map-append f (x ∷ xs) ys = ap (λ l. f x ∷ l) (map-append f xs ys)

abbrev pub available : List (List StreamMessage × Bool) → List StreamMessage
available [] = []
available ((ms, finish) ∷ polls) = ms ++ available polls

consume-whole :
    (ms : List StreamMessage) (finish : Bool) (out : List PendingSend)
    → (consume_messages ms finish out).1 ≡ out ++ map whole ms
unfolding consume_messages
consume-whole [] true out = sym (append-nil out)
consume-whole [] false out = sym (append-nil out)
consume-whole (m ∷ ms) finish out = ap (λ l. out ++ l) (map-whole (m ∷ ms))

forward-whole :
    (polls : List (List StreamMessage × Bool)) (out : List PendingSend)
    → forward polls out ≡ out ++ map whole (available polls)
unfolding forward
forward-whole [] out = sym (append-nil out)
forward-whole ((ms, finish) ∷ polls) out =
    forward-whole polls (consume_messages ms finish out).1
    ∙ rw (consume-whole ms finish out, map-append whole ms (available polls))
        (append_assoc out (map whole ms) (map whole (available polls)))

-- However the writer batches its messages and cuts their payloads into chunks, and whether or not a
-- poll finishes the stream or a payload: the host sends what it would send of the list of all the
-- messages with their whole payloads, in order, with the same result and the same count.
pub send_via_stream-forward :
    {Wire : Type 0} (t : Transport Wire) (w : Wire) (sent : ℕ)
    (polls : List (List StreamMessage × Bool))
    → send_via_stream t w sent (forward polls [])
      ≡ send_via_stream t w sent (map whole (available polls))
send_via_stream-forward t w sent polls = ap (send_via_stream t w sent) (forward-whole polls [])
