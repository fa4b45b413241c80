-- ===== src/Signaling/Rooms/Caps.antt =====
-- The capacity caps of conformance/signaling/server/src/state.rs.
use wasi_webrtc_datachannels.Base.{
  ℕ, suc, ◌+◌, ◌≤◌, ◌≡◌, ◌≢◌, refl, sym, ◌∙◌, String, true, false, List, [], ◌∷◌, ◌++◌, length,
  length-append, string_eq, nat_eq, if◌then◌else◌, arith, inl, inr, Bool-cases, leb, leb→le, subst,
}
use wasi_webrtc_datachannels.Base.Dict.{lookup, contains_key, IsMap, length-insert}
use wasi_webrtc_datachannels.Signaling.Mailbox.{
  Role, Blob, Publish, Limits, Room, mailbox, set_mailbox,
}
use wasi_webrtc_datachannels.Signaling.Rooms.{
  Rooms, new, enter, append, publish, mark_done, fetch_now, delete, put_mailbox, wake, room_count,
  at_room_cap, evict_expired, Op, publishes, marks, fetches, deletes, evicts, step, run,
}
use wasi_webrtc_datachannels.Signaling.Rooms.View.{Posted, view, update, enter_cases}
use wasi_webrtc_datachannels.Signaling.Rooms.Publishing.{
  PublishOutcome, publish_cases, publish-Outcome, mark_done-view, view-enter_all, limits-enter,
  enter_contains,
}
use wasi_webrtc_datachannels.Signaling.Rooms.Removal.{
  limits-evict_expired, view_absent, view-delete_other, view-evict_other, rooms-delete,
}
use wasi_webrtc_datachannels.Signaling.Rooms.History.{step-IsMap}

-- Entering a room adds an entry exactly if there was none.
room_count-enter :
    (s : Rooms) (now : ℕ) (room : String)
    → room_count (enter s now room).1
      ≡ (if contains_key room s.rooms then room_count s else suc (room_count s))
unfolding room_count
room_count-enter s now room =
    enter_cases
      (λ p.
        length p.1.rooms
        ≡ (if contains_key room s.rooms then length s.rooms else suc (length s.rooms)))
      s now room (λ e. length-insert room _ s.rooms) (λ r e. length-insert room _ s.rooms)

room_count-append :
    (s : Rooms) (room : String) (role : Role) (b : Blob) (r : Room)
    → contains_key room s.rooms ≡ true
    → room_count (append s room role b r).1 ≡ room_count s
unfolding append wake put_mailbox room_count
room_count-append s room role b r c =
    let m = record (mailbox r role) { blobs = (mailbox r role).blobs ++ b ∷ [] } in
    ground (arith, length-insert room (set_mailbox r role m) s.rooms)

below_cap :
    (s : Rooms) (room : String)
    → s.limits.max_rooms ≢ 0
    → room_count s ≤ s.limits.max_rooms
    → at_room_cap s room ≡ false
    → (if contains_key room s.rooms then room_count s else suc (room_count s)) ≤ s.limits.max_rooms
unfolding at_room_cap room_count
below_cap s room h c free = ground arith

-- With a cap on rooms, `publish` never takes their number above it; and it adds at most one room.
pub publish-room_count :
    (s : Rooms) (now : ℕ) (room : String) (role : Role) (b : Blob)
    → s.limits.max_rooms ≢ 0
    → room_count s ≤ s.limits.max_rooms
    → room_count (publish s now room role b).1 ≤ s.limits.max_rooms
publish-room_count s now room role b h c =
    publish_cases (λ p. room_count p.1 ≤ s.limits.max_rooms) s now room role b (λ full. c)
      λ free.
        let (r, s') = enter s now room in
        rw (room_count-append s' room role b r (enter_contains s now room))
          (rw room_count-enter (below_cap s room h c free))

-- `fetch_now` and `mark_done` open a room that is not there, whatever the cap on rooms.
pub room_count_uncapped :
    (s : Rooms) (now : ℕ) (room : String) (role : Role) (n : ℕ)
    → contains_key room s.rooms ≡ false
    → (room_count (fetch_now s now room role n).1 ≡ suc (room_count s))
      × (room_count (mark_done s now room role).1 ≡ suc (room_count s))
unfolding fetch_now mark_done put_mailbox wake
room_count_uncapped s now room role n h =
    let grown = room_count-enter s now room ∙ rw h refl in (grown, written ∙ grown)
  where
    s' : Rooms
    s' = (enter s now room).1

    written : room_count (mark_done s now room role).1 ≡ room_count s'
    written =
        unfold room_count in length-insert room _ s'.rooms ∙ rw (enter_contains s now room) refl

limits-append :
    (s : Rooms) (room : String) (role : Role) (b : Blob) (r : Room)
    → (append s room role b r).1.limits ≡ s.limits
unfolding append put_mailbox wake
limits-append s room role b r = ground arith

pub limits-step : (s : Rooms) (o : Op) → IsMap s.rooms → (step s o).limits ≡ s.limits
unfolding step mark_done fetch_now put_mailbox wake
limits-step s (publishes now room role b) h =
    publish_cases (λ p. p.1.limits ≡ s.limits) s now room role b (λ full. refl)
      (λ free. limits-append _ room role b _ ∙ limits-enter s now room)
limits-step s (marks now room role) h = limits-enter s now room
limits-step s (fetches now room role n) h = limits-enter s now room
limits-step s (deletes room) h = (rooms-delete s room).2
limits-step s (evicts now) h = limits-evict_expired s now

-- Every mailbox keeps within the cap on blobs.
abbrev pub BlobsBounded : ℕ → Rooms → Type 0
BlobsBounded cap s = (j : String) (k : Role) → length (view s j k).blobs ≤ cap

update-Bounded :
    (cap : ℕ) (v : String → Role → Posted) (room j : String) (role k : Role) (p : Posted)
    → ((j : String) (k : Role) → length (v j k).blobs ≤ cap)
    → length p.blobs ≤ cap
    → length (update v room role p j k).blobs ≤ cap
update-Bounded cap v room j role k p h fits = ground (arith, h j k)

below : (cap n : ℕ) → cap ≢ 0 → ¬ ((cap ≢ 0) × (cap ≤ n)) → n + 1 ≤ cap
below cap n c h = elim (Bool-cases (leb cap n)) [
  | inl e ↦ absurd (h (c, leb→le cap n e))
  | inr e ↦ ground arith
]

publish-Bounded :
    (s : Rooms) (room : String) (role : Role) (b : Blob) (p : Publish) (s' : Rooms)
    → s.limits.max_blobs_per_mailbox ≢ 0
    → PublishOutcome s room role b p s'
    → BlobsBounded s.limits.max_blobs_per_mailbox s
    → BlobsBounded s.limits.max_blobs_per_mailbox s'
publish-Bounded s room role b (Publish.seq n) s' c o h j k =
    rw (o.4) (update-Bounded _ (view s) room j role k _ h (rw length-append (below _ _ c (o.1))))
publish-Bounded s room role b Publish.done s' c o h j k = rw (o.2) (h j k)
publish-Bounded s room role b Publish.capacity s' c o h j k = rw (o.1) (h j k)

-- One call of the store keeps every mailbox within a cap that is set.
pub step-BlobsBounded :
    (s : Rooms) (o : Op)
    → IsMap s.rooms
    → s.limits.max_blobs_per_mailbox ≢ 0
    → BlobsBounded s.limits.max_blobs_per_mailbox s
    → BlobsBounded s.limits.max_blobs_per_mailbox (step s o)
unfolding step
step-BlobsBounded s (publishes now room role b) m c h j k =
    publish-Bounded s room role b _ _ c (publish-Outcome s now room role b) h j k
step-BlobsBounded s (marks now room role) m c h j k =
    rw ((mark_done-view s now room role).1)
      (update-Bounded _ (view s) room j role k _ h (h room role))
step-BlobsBounded s (fetches now room role n) m c h j k =
    unfold fetch_now in rw view-enter_all (h j k)
step-BlobsBounded s (deletes room) m c h j k =
    elim (Bool-cases (contains_key j (delete s room).1.rooms)) [
      | inl there ↦ rw (view-delete_other s room j k there) (h j k)
      | inr gone ↦ rw (view_absent (delete s room).1 j k gone) (omega arith)
    ]
step-BlobsBounded s (evicts now) m c h j k =
    elim (Bool-cases (contains_key j (evict_expired s now).1.rooms)) [
      | inl there ↦ rw (view-evict_other s now j k m there) (h j k)
      | inr gone ↦ rw (view_absent (evict_expired s now).1 j k gone) (omega arith)
    ]

run-BlobsBounded_from :
    (s : Rooms) (os : List Op)
    → IsMap s.rooms
    → s.limits.max_blobs_per_mailbox ≢ 0
    → BlobsBounded s.limits.max_blobs_per_mailbox s
    → BlobsBounded s.limits.max_blobs_per_mailbox (run s os)
unfolding run
run-BlobsBounded_from s [] m c h = h
run-BlobsBounded_from s (o ∷ os) m c h =
    let same = limits-step s o m in
    subst (λ (l : Limits). BlobsBounded l.max_blobs_per_mailbox (run (step s o) os)) same
      (run-BlobsBounded_from (step s o) os (step-IsMap s o m)
        (subst (λ (l : Limits). l.max_blobs_per_mailbox ≢ 0) (sym same) c)
        (subst (λ (l : Limits). BlobsBounded l.max_blobs_per_mailbox (step s o)) (sym same)
          (step-BlobsBounded s o m c h)))

-- From a new store, whatever the calls, no mailbox grows past a cap on blobs that is set.
pub run-BlobsBounded :
    (l : Limits) (os : List Op)
    → l.max_blobs_per_mailbox ≢ 0
    → BlobsBounded l.max_blobs_per_mailbox (run (new l) os)
run-BlobsBounded l os c =
    unfold new in run-BlobsBounded_from (new l) os tt c (unfold view lookup in λ j k. omega arith)
