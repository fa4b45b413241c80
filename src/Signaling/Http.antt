-- ===== src/Signaling/Http.antt =====
-- The request handlers of conformance/signaling/server/src/lib.rs. axum hands them the path
-- segments, the query and the body; they return a status, headers and a body.
pub mod RoomNames
pub mod Handlers
use wasi_webrtc_datachannels.Base.{
  ℕ, ◌+◌, ◌≡◌, String, Bool, true, false, Option, none, some, List, [], ◌∷◌, length, all, leb, ltb,
  ◌==◌, nat_eq, not, ◌&&◌, ◌||◌, if◌then◌else◌,
}
use wasi_webrtc_datachannels.Base.Text.{bytes, parse_usize, is_digit}
use wasi_webrtc_datachannels.Signaling.Mailbox.{
  Role, Blob, Fetch, Publish, parse_role, blob, pending,
}
use wasi_webrtc_datachannels.Signaling.Rooms.{Rooms, publish, mark_done, delete}
use wasi_webrtc_datachannels.Signaling.LongPoll.{Poll, begin}

pub record Config : Type 0 where
  pub long_poll : ℕ
  pub max_blob_bytes : ℕ

-- The JSON object or the bytes of a response.
pub data Body : Type 0 where
  ok_text : Body
  error : String → Body
  too_large : ℕ → Body
  seq : ℕ → Body
  done_len : ℕ → Body
  deleted : Bool → Body
  octets : Blob → Body
  empty : Body

pub record Response : Type 0 where
  pub status : ℕ
  pub x_seq : Option ℕ
  pub x_done : Bool
  pub body : Body

abbrev pub json : ℕ → Body → Response
json status body = record { status = status; x_seq = none; x_done = false; body = body }

abbrev pub bad_request : String → Response
bad_request code = json 400 (error code)

unfoldable pub healthz : Response
healthz = json 200 ok_text

-- The bytes that a room name may hold.
unfoldable pub room_byte : ℕ → Bool
room_byte b =
    is_digit b
    || (leb b'A' b && leb b b'Z')
    || (leb b'a' b && leb b b'z')
    || b == b'.'
    || b == b'_'
    || b == b'-'

unfoldable pub valid_room_bytes : List ℕ → Bool
valid_room_bytes bs = not (length bs == 0) && leb (length bs) 128 && all room_byte bs

unfoldable pub valid_room : String → Bool
unfolding valid_room_bytes
valid_room room = valid_room_bytes (bytes room)

-- The checks that the handlers share: the room name, then the role.
unfoldable pub with_role :
    Config → String → String → (Role → Response × Rooms) → Rooms → Response × Rooms
with_role c room role k s =
    if valid_room room
    then (elim (parse_role role) [ none ↦ (bad_request "bad-role", s) | some r ↦ k r ])
    else (bad_request "bad-room", s)

abbrev pub published : Publish → Response
published (Publish.seq n) = json 200 (seq n)
published Publish.done = json 409 (error "done")
published Publish.capacity = json 429 (error "capacity")

unfoldable pub post_publish : Config → Rooms → ℕ → String → String → Blob → Response × Rooms
post_publish c s now room role body =
    with_role c room role
      (λ r.
        if ltb c.max_blob_bytes (length body)
        then (json 413 (too_large c.max_blob_bytes), s)
        else let (p, s') = publish s now room r body in (published p, s'))
      s

unfoldable pub post_done : Config → Rooms → ℕ → String → String → Response × Rooms
post_done c s now room role =
    with_role c room role
      (λ r. let (len, s') = mark_done s now room r in (json 200 (done_len len), s')) s

unfoldable pub delete_room : Rooms → String → Response × Rooms
delete_room s room =
    if valid_room room
    then (let (gone, s') = delete s room in (json 200 (deleted gone), s'))
    else (bad_request "bad-room", s)

-- What a fetch request does: it is refused, or the store is polled.
pub data Request : Type 0 where
  refused : Response → Request
  polling : Poll → Request

abbrev read_seq : Option String → Option ℕ
read_seq none = none
read_seq (some text) = parse_usize 64 (bytes text)

abbrev wait_of : Config → Option ℕ → ℕ
wait_of c none = c.long_poll
wait_of c (some ms) = ms

unfoldable pub get_fetch : Config → ℕ → String → String → Option String → Option ℕ → Request
get_fetch c now room role seq_text wait =
    if valid_room room
    then (elim (parse_role role) [
      | none ↦ refused (bad_request "bad-role")
      | some r ↦ elim (read_seq seq_text) [
        | none ↦ refused (bad_request "bad-seq")
        | some n ↦ polling (begin now room r n (wait_of c wait))
      ]
    ])
    else refused (bad_request "bad-room")

-- The response to a fetch of `n`.
unfoldable pub fetched : ℕ → Fetch → Response
fetched n (blob b) = record { status = 200; x_seq = some n; x_done = false; body = octets b }
fetched n Fetch.done = record { status = 204; x_seq = none; x_done = true; body = empty }
fetched n pending = record { status = 304; x_seq = some n; x_done = false; body = empty }
