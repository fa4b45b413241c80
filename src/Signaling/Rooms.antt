-- ===== src/Signaling/Rooms.antt =====
-- The room store of conformance/signaling/server/src/state.rs. Each method runs under the write lock
-- of the map, so it is one function from store to store; `now` is the clock that it reads.
-- `calls` lists the notifiers on which `notify_waiters` was called, the latest first.
pub mod View
pub mod Publishing
pub mod Removal
pub mod History
pub mod Stability
pub mod Caps
use wasi_webrtc_datachannels.Base.{
  ℕ, ◌+◌, ◌-◌, ◌≡◌, String, Bool, true, false, Option, none, some, List, [], ◌∷◌, ◌++◌, length,
  get_elem?, ◌==◌, nat_eq, string_eq, ltb, leb, if◌then◌else◌, not, ◌&&◌,
}
use wasi_webrtc_datachannels.Base.Dict.{lookup, contains_key, insert, remove}
use wasi_webrtc_datachannels.Signaling.Mailbox.{
  Role, Blob, Fetch, Mailbox, Room, Publish, Limits, new_room, mailbox, set_mailbox, peek,
}

pub record Rooms : Type 0 where
  pub rooms : List (String × Room)
  pub limits : Limits
  pub next_notify : ℕ
  pub calls : List ℕ

unfoldable pub new : Limits → Rooms
new limits = record { rooms = []; limits = limits; next_notify = 0; calls = [] }

unfoldable pub wake : Rooms → Mailbox → Rooms
wake s m = record s { calls = m.notify ∷ s.calls }

-- `entry(room).or_insert_with(..)`, then `entry.last_touched = now`.
enter_at : Rooms → ℕ → String → Option Room → Room × Rooms
enter_at s now room none =
    let r = new_room now s.next_notify in
    (r, record s { rooms = insert room r s.rooms; next_notify = s.next_notify + 2 })
enter_at s now room (some r) =
    let r' = record r { last_touched = now } in (r', record s { rooms = insert room r' s.rooms })

unfoldable pub enter : Rooms → ℕ → String → Room × Rooms
unfolding enter_at
enter s now room = enter_at s now room (lookup room s.rooms)

unfoldable pub put_mailbox : Rooms → String → Room → Role → Mailbox → Rooms
put_mailbox s room r role m = record s { rooms = insert room (set_mailbox r role m) s.rooms }

unfoldable pub at_room_cap : Rooms → String → Bool
at_room_cap s room =
    not (contains_key room s.rooms)
    && (not (s.limits.max_rooms == 0) && leb s.limits.max_rooms (length s.rooms))

unfoldable pub at_blob_cap : Rooms → Mailbox → Bool
at_blob_cap s m =
    not (s.limits.max_blobs_per_mailbox == 0) && leb s.limits.max_blobs_per_mailbox (length m.blobs)

-- The rest of `publish`, once the entry is there.
unfoldable pub append : Rooms → String → Role → Blob → Room → Publish × Rooms
append s room role b r =
    let m = mailbox r role in
    if m.done then (Publish.done, s) else if at_blob_cap s m then (Publish.capacity, s) else (
      Publish.seq (length m.blobs),
      wake (put_mailbox s room r role (record m { blobs = m.blobs ++ b ∷ [] })) m,
    )

unfoldable pub publish : Rooms → ℕ → String → Role → Blob → Publish × Rooms
publish s now room role b =
    if at_room_cap s room
    then (Publish.capacity, s)
    else let (r, s') = enter s now room in append s' room role b r

unfoldable pub mark_done : Rooms → ℕ → String → Role → ℕ × Rooms
mark_done s now room role =
    let (r, s') = enter s now room in
    let m = mailbox r role in
    (length m.blobs, wake (put_mailbox s' room r role (record m { done = true })) m)

-- The classification and the notifier of the mailbox.
unfoldable pub fetch_now : Rooms → ℕ → String → Role → ℕ → (Fetch × ℕ) × Rooms
fetch_now s now room role n =
    let (r, s') = enter s now room in let m = mailbox r role in ((peek m n, m.notify), s')

drop_entry : Rooms → String → Option Room → Bool × Rooms
drop_entry s room none = (false, s)
drop_entry s room (some r) =
    (true, wake (wake (record s { rooms = remove room s.rooms }) r.offerer) r.answerer)

unfoldable pub delete : Rooms → String → Bool × Rooms
unfolding drop_entry
delete s room = drop_entry s room (lookup room s.rooms)

abbrev pub is_expired : Rooms → ℕ → Room → Bool
is_expired s now r = ltb s.limits.room_ttl (now - r.last_touched)

unfoldable pub expired_keys : Rooms → ℕ → List (String × Room) → List String
expired_keys s now [] = []
expired_keys s now ((k, r) ∷ m) =
    let rest = expired_keys s now m in if is_expired s now r then k ∷ rest else rest

-- The loop over the expired keys takes each entry out as `delete` does.
unfoldable pub delete_all : List String → Rooms → Rooms
delete_all [] s = s
delete_all (k ∷ ks) s = delete_all ks (delete s k).1

unfoldable pub evict_expired : Rooms → ℕ → ℕ × Rooms
evict_expired s now =
    let expired = expired_keys s now s.rooms in (length expired, delete_all expired s)

unfoldable pub room_count : Rooms → ℕ
room_count s = length s.rooms

-- A call of the store, with the clock that it reads.
pub data Op : Type 0 where
  publishes : ℕ → String → Role → Blob → Op
  marks : ℕ → String → Role → Op
  fetches : ℕ → String → Role → ℕ → Op
  deletes : String → Op
  evicts : ℕ → Op

unfoldable pub step : Rooms → Op → Rooms
step s (publishes now room role b) = (publish s now room role b).1
step s (marks now room role) = (mark_done s now room role).1
step s (fetches now room role n) = (fetch_now s now room role n).1
step s (deletes room) = (delete s room).1
step s (evicts now) = (evict_expired s now).1

unfoldable pub run : Rooms → List Op → Rooms
run s [] = s
run s (o ∷ os) = run (step s o) os
