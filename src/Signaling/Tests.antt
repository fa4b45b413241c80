-- ===== src/Signaling/Tests.antt =====
-- The theorems on conformance/signaling/server/src at concrete stores and requests.
use wasi_webrtc_datachannels.Base.{
  ◌+◌, ◌≡◌, ◌↔◌, refl, true, false, some, List, [], ◌∷◌, nat_eq, string_eq, arith, suc,
}
use wasi_webrtc_datachannels.Base.Dict.{contains_key, lookup, insert}
use wasi_webrtc_datachannels.Base.Text.{codes, encode_all, encode, parse_usize, parse_digits}
use wasi_webrtc_datachannels.Signaling.Mailbox.{offerer, answerer, blob, Limits, peek, parse_role}
use wasi_webrtc_datachannels.Signaling.Rooms.{
  Rooms, new, wake, enter, put_mailbox, at_room_cap, at_blob_cap, append, publish, mark_done,
  fetch_now, expired_keys, delete_all, evict_expired, room_count, Op, publishes, marks, evicts,
  step, run,
}
use wasi_webrtc_datachannels.Signaling.Rooms.View.{view}
use wasi_webrtc_datachannels.Signaling.Rooms.Publishing.{PublishOutcome, publish-Outcome}
use wasi_webrtc_datachannels.Signaling.Rooms.Removal.{live_entries, evict_expired-live}
use wasi_webrtc_datachannels.Signaling.Rooms.Stability.{fetch_now_again, publish-fetch_now}
use wasi_webrtc_datachannels.Signaling.Rooms.Caps.{
  room_count_uncapped, BlobsBounded, run-BlobsBounded,
}
use wasi_webrtc_datachannels.Signaling.LongPoll.{
  start, peeked, parked, returned, Poll, poll, Event, call, polls, advance, advance_all,
}
use wasi_webrtc_datachannels.Signaling.LongPoll.CallLog.{call_log, called}
use wasi_webrtc_datachannels.Signaling.LongPoll.NoLostWake.{no_lost_wake}
use wasi_webrtc_datachannels.Signaling.LongPoll.LostWake.{lost_wake}
use wasi_webrtc_datachannels.Signaling.Http.{
  Config, octets, post_publish, get_fetch, polling, fetched, valid_room, valid_room_bytes,
  room_byte, with_role,
}
use wasi_webrtc_datachannels.Signaling.Http.RoomNames.{RoomName, valid_room_iff}
use wasi_webrtc_datachannels.Signaling.Http.Handlers.{post_publish-view, post-get}

abbrev limits : Limits
limits = record { room_ttl = 600; max_rooms = 1; max_blobs_per_mailbox = 2 }

abbrev no_limits : Limits
no_limits = record { room_ttl = 600; max_rooms = 0; max_blobs_per_mailbox = 0 }

abbrev config : Config
config = record { long_poll = 25; max_blob_bytes = 4 }

-- A room with one blob of the offerer.
abbrev one_blob : Rooms
one_blob = (publish (new limits) 5 "r" offerer (7 ∷ [])).1

publish-Outcome_example :
    PublishOutcome one_blob "r" offerer
      (8 ∷ [])
      (publish one_blob 6 "r" offerer (8 ∷ [])).0
      (publish one_blob 6 "r" offerer (8 ∷ [])).1
publish-Outcome_example = publish-Outcome one_blob 6 "r" offerer (8 ∷ [])

evict_expired-live_example :
    ((evict_expired one_blob 700).1.rooms ≡ live_entries one_blob 700 one_blob.rooms)
    × ((evict_expired one_blob 700).0 + room_count (evict_expired one_blob 700).1
        ≡ room_count one_blob)
unfolding publish append enter put_mailbox wake new at_room_cap at_blob_cap insert lookup
    contains_key
evict_expired-live_example = evict_expired-live one_blob 700 (refl, tt)

abbrev later_calls : List Op
later_calls = marks 7 "r" offerer ∷ publishes 8 "r" answerer (9 ∷ []) ∷ evicts 9 ∷ []

fetch_now_again_example :
    (fetch_now (run one_blob later_calls) 10 "r" offerer 0).0.0
    ≡ (fetch_now one_blob 6 "r" offerer 0).0.0
unfolding publish append enter put_mailbox wake new at_room_cap at_blob_cap insert lookup
    contains_key step mark_done evict_expired expired_keys delete_all fetch_now peek
fetch_now_again_example =
    fetch_now_again one_blob 6 10 "r" offerer 0 later_calls (refl, tt) (refl, (refl, (refl, tt)))
      (λ e. cc)

publish-fetch_now_example :
    (fetch_now (run (publish one_blob 6 "r" offerer (8 ∷ [])).1 later_calls) 10 "r" offerer 1).0.0
    ≡ blob (8 ∷ [])
unfolding publish append enter put_mailbox wake new at_room_cap at_blob_cap insert lookup
    contains_key step mark_done evict_expired expired_keys delete_all
publish-fetch_now_example =
    publish-fetch_now one_blob 6 10 "r" offerer (8 ∷ []) 1 later_calls (refl, tt) refl
      (refl, (refl, (refl, tt)))

room_count_uncapped_example :
    (room_count (fetch_now one_blob 6 "q" offerer 0).1 ≡ suc (room_count one_blob))
    × (room_count (mark_done one_blob 6 "q" offerer).1 ≡ suc (room_count one_blob))
unfolding publish append enter put_mailbox wake new at_room_cap at_blob_cap insert lookup
    contains_key
room_count_uncapped_example = room_count_uncapped one_blob 6 "q" offerer 0 refl

run-BlobsBounded_example : BlobsBounded 2 (run (new limits) later_calls)
run-BlobsBounded_example = run-BlobsBounded limits later_calls (λ e. omega (arith, e))

valid_room_iff_example : (valid_room "room-1" ≡ true) ↔ RoomName (codes "room-1")
valid_room_iff_example = valid_room_iff "room-1"

post_publish-view_example :
    view (post_publish config one_blob 6 "r" "offerer" (1 ∷ 2 ∷ 3 ∷ 4 ∷ 5 ∷ [])).1 ≡ view one_blob
unfolding post_publish with_role parse_role valid_room valid_room_bytes room_byte encode_all encode
post_publish-view_example =
    post_publish-view config one_blob 6 "r" "offerer" (1 ∷ 2 ∷ 3 ∷ 4 ∷ 5 ∷ [])
      (λ e. let too_large : 413 ≡ 200 = e in omega (arith, too_large))

post-get_example :
    (p : Poll) × (get_fetch config 9 "r" "offerer" (some "0") (some 25) ≡ polling p)
    × ((poll call_log p 9
          (run (post_publish config (new limits) 4 "r" "offerer" (7 ∷ [])).1 later_calls)
          start).0
        ≡ returned (blob (7 ∷ [])))
    × (fetched 0 (blob (7 ∷ []))
        ≡ record { status = 200; x_seq = some 0; x_done = false; body = octets (7 ∷ []) })
unfolding publish append enter put_mailbox wake new at_room_cap at_blob_cap insert lookup
    contains_key step mark_done evict_expired expired_keys delete_all post_publish with_role
    parse_role valid_room valid_room_bytes room_byte encode_all encode parse_usize parse_digits
post-get_example =
    post-get call_log config (new limits) 4 9 0 25 "r" "offerer" "0" (7 ∷ []) later_calls tt refl
      (λ r. (refl, (refl, (refl, tt)))) refl

-- A fetch of the first blob of a room.
abbrev waiting : Poll
waiting = record { room = "r"; role = offerer; seq = 0; deadline = 25 }

abbrev parks_first : List Event
parks_first = polls 1 ∷ polls 2 ∷ polls 3 ∷ call (publishes 4 "r" offerer (7 ∷ [])) ∷ []

no_lost_wake_example :
    let (f, t) = advance_all call_log waiting (start, new limits) parks_first in
    ((poll call_log waiting 5 t f).0 ≡ start)
    × ((poll call_log waiting 5 t start).0 ≡ returned (fetch_now t 5 "r" offerer 0).0.0)
unfolding called advance_all advance poll fetch_now peek publish append enter put_mailbox wake new
    at_room_cap at_blob_cap insert lookup contains_key step
no_lost_wake_example =
    no_lost_wake call_log waiting (new limits) parks_first 0 0 27 5 (tt, (tt, (tt, (tt, tt)))) refl
      (λ e. cc)

-- A store whose room was taken out after a fetch of it had peeked.
abbrev taken_out : Rooms
taken_out = record { rooms = []; limits = no_limits; next_notify = 2; calls = 1 ∷ 0 ∷ [] }

lost_wake_example :
    let (f, t) =
      advance_all call_log waiting
        (peeked 0 20, taken_out)
        (polls 6 ∷ polls 7 ∷ call (publishes 8 "r" offerer (7 ∷ [])) ∷ []) in
    (f ≡ parked 0 2 27)
    × ((fetch_now t 9 "r" offerer 0).0.0 ≡ blob (7 ∷ []))
    × ((poll call_log waiting 9 t f).0 ≡ f)
unfolding lookup called
lost_wake_example =
    lost_wake call_log waiting taken_out (7 ∷ []) 0 20 6 7 8 9 refl (omega arith) refl refl refl
      (omega arith)
