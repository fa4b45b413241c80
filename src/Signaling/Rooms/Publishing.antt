-- ===== src/Signaling/Rooms/Publishing.antt =====
-- What `publish` and `mark_done` of conformance/signaling/server/src/state.rs do, as clients see it.
use wasi_webrtc_datachannels.Base.{
  ℕ, false≢true, ◌≤◌, ◌≡◌, ◌≢◌, refl, sym, ap, ◌∙◌, fun_ext, String, true, false, some, [], ◌∷◌,
  ◌++◌, length, string_eq, nat_eq, arith, inl, inr, ◌⊎◌, Bool-cases,
}
use wasi_webrtc_datachannels.Base.Dict.{lookup, contains_key, contains_key-lookup}
use wasi_webrtc_datachannels.Signaling.Mailbox.{Role, Blob, Mailbox, Room, Publish, mailbox}
use wasi_webrtc_datachannels.Signaling.Rooms.{
  Rooms, enter, append, publish, mark_done, put_mailbox, wake, at_room_cap, at_blob_cap, room_count,
}
use wasi_webrtc_datachannels.Signaling.Rooms.View.{
  posted, view, update, view-enter, enter-room, enter_cases, lookup-enter, view-put_mailbox,
}

pub view-enter_all : (s : Rooms) (now : ℕ) (room : String) → view (enter s now room).1 ≡ view s
view-enter_all s now room = fun_ext λ j. fun_ext λ k. view-enter s now room j k

pub limits-enter : (s : Rooms) (now : ℕ) (room : String) → (enter s now room).1.limits ≡ s.limits
limits-enter s now room =
    enter_cases (λ p. p.1.limits ≡ s.limits) s now room (λ e. refl) (λ r e. refl)

-- Why a publish may be refused for capacity: a new room where the rooms are at their cap, or a
-- mailbox at its cap.
abbrev pub RoomsFull : Rooms → String → Type 0
RoomsFull s room =
    (contains_key room s.rooms ≡ false)
    × (s.limits.max_rooms ≢ 0)
    × (s.limits.max_rooms ≤ room_count s)

abbrev pub MailboxFull : Rooms → String → Role → Type 0
MailboxFull s room role =
    (s.limits.max_blobs_per_mailbox ≢ 0)
    × (s.limits.max_blobs_per_mailbox ≤ length (view s room role).blobs)

abbrev pub PublishOutcome : Rooms → String → Role → Blob → Publish → Rooms → Type 0
PublishOutcome s room role b (Publish.seq n) s' =
    ¬ RoomsFull s room
    × ¬ MailboxFull s room role
    × ((view s room role).done ≡ false)
    × (n ≡ length (view s room role).blobs)
    × (view s'
        ≡ update (view s) room role
            (record { blobs = (view s room role).blobs ++ b ∷ []; done = false }))
PublishOutcome s room role b Publish.done s' =
    ¬ RoomsFull s room × ((view s room role).done ≡ true) × (view s' ≡ view s)
PublishOutcome s room role b Publish.capacity s' =
    (RoomsFull s room ⊎ (MailboxFull s room role × ((view s room role).done ≡ false)))
    × (view s' ≡ view s)

at_room_cap-RoomsFull : (s : Rooms) (room : String) → at_room_cap s room ≡ true → RoomsFull s room
unfolding at_room_cap room_count
at_room_cap-RoomsFull s room h = ground arith

not-at_room_cap : (s : Rooms) (room : String) → at_room_cap s room ≡ false → ¬ RoomsFull s room
unfolding at_room_cap room_count
not-at_room_cap s room h (absent, capped, full) = ground arith

not-at_blob_cap :
    (s : Rooms) (m : Mailbox)
    → at_blob_cap s m ≡ false
    → ¬ ((s.limits.max_blobs_per_mailbox ≢ 0) × (s.limits.max_blobs_per_mailbox ≤ length m.blobs))
unfolding at_blob_cap
not-at_blob_cap s m h (capped, full) = ground arith

at_blob_cap-le :
    (s : Rooms) (m : Mailbox)
    → at_blob_cap s m ≡ true
    → (s.limits.max_blobs_per_mailbox ≢ 0) × (s.limits.max_blobs_per_mailbox ≤ length m.blobs)
unfolding at_blob_cap
at_blob_cap-le s m h = ground arith

view-wake : (s : Rooms) (m : Mailbox) → view (wake s m) ≡ view s
unfolding view wake
view-wake s m = refl

module _ (s : Rooms) (room : String) (r : Room) (there : lookup room s.rooms ≡ some r) where
  view-there : (role : Role) → posted (mailbox r role) ≡ view s room role
  unfolding view
  view-there role = rw there

  view-put_mailbox_all :
      (role : Role) (m : Mailbox)
      → view (put_mailbox s room r role m) ≡ update (view s) room role (posted m)
  view-put_mailbox_all role m = fun_ext λ j. fun_ext λ k. view-put_mailbox s room j r role k m there

  append-Outcome :
      (role : Role) (b : Blob)
      → PublishOutcome s room role b (append s room role b r).0 (append s room role b r).1
  unfolding append
  append-Outcome role b = elim (Bool-cases (mailbox r role).done) [
    | inl d ↦ rw (d, append) (not_full, rw (← view-there role) d, refl)
    | inr d ↦ elim (Bool-cases (at_blob_cap s (mailbox r role))) [
      | inl full ↦
          rw (d, append)
            (rw (full, append)
              (inr (rw (← view-there role) (at_blob_cap-le s (mailbox r role) full, d)), refl))
      | inr room_left ↦
          rw (d, append)
            (rw (room_left, append)
              (rw (← view-there role) (
                not_full,
                not-at_blob_cap s _ room_left,
                d,
                refl,
                view-wake _ _ ∙ view-put_mailbox_all role _,
              )))
    ]
  ]
    where
      not_full : ¬ RoomsFull s room
      not_full (absent, _, _) =
          false≢true (sym absent ∙ (contains_key-lookup room s.rooms ∙ rw there refl))

  mark-view :
      (role : Role) (m : Mailbox)
      → m ≡ record (mailbox r role) { done = true }
      → view (wake (put_mailbox s room r role m) (mailbox r role))
        ≡ update (view s) room role (record { blobs = (view s room role).blobs; done = true })
  mark-view role m e =
      view-wake _ _
      ∙ view-put_mailbox_all role m
      ∙ ap (update (view s) room role) (rw e (rw (← view-there role)))

-- Passing from the store that `enter` leaves to the one before it.
pub enter_contains :
    (s : Rooms) (now : ℕ) (room : String) → contains_key room (enter s now room).1.rooms ≡ true
enter_contains s now room = contains_key-lookup room _ ∙ rw lookup-enter refl

Outcome-enter :
    (s : Rooms) (now : ℕ) (room : String) (role : Role) (b : Blob) (p : Publish) (s' : Rooms)
    → at_room_cap s room ≡ false
    → PublishOutcome (enter s now room).1 room role b p s'
    → PublishOutcome s room role b p s'
Outcome-enter s now room role b (Publish.seq n) s' free o = (
  not-at_room_cap s room free,
  rw limits-enter at (rw view-enter_all at (o.1)),
  rw view-enter_all at (o.2),
  rw view-enter_all at (o.3),
  rw view-enter_all at (o.4),
)
Outcome-enter s now room role b Publish.done s' free o =
    (not-at_room_cap s room free, rw view-enter_all at (o.1), rw view-enter_all at (o.2))
Outcome-enter s now room role b Publish.capacity s' free (inl full, same) =
    absurd (false≢true (sym full.0 ∙ enter_contains s now room))
Outcome-enter s now room role b Publish.capacity s' free (inr full, same) =
    (inr (rw limits-enter at (rw view-enter_all at full)), rw view-enter_all at same)

pub publish_cases {ℓ} :
    (P : Publish × Rooms → Type ℓ) (s : Rooms) (now : ℕ) (room : String) (role : Role) (b : Blob)
    → (at_room_cap s room ≡ true → P (Publish.capacity, s))
    → (at_room_cap s room ≡ false
        → P (append (enter s now room).1 room role b (enter s now room).0))
    → P (publish s now room role b)
unfolding publish
publish_cases P s now room role b full free = elim (Bool-cases (at_room_cap s room)) [
  | inl e ↦ rw (e, publish) (full e)
  | inr e ↦ rw (e, publish) (free e)
]

-- A publish is refused for capacity exactly where its room is new and the rooms are at their cap, or
-- its mailbox is at its cap and not done. Otherwise it is refused as done exactly on a mailbox that
-- is done, at its cap or not. Both refusals leave every mailbox showing what it showed. A publish
-- that is accepted has the count of blobs that were there as its number, puts its blob at the end of
-- its mailbox, and no other mailbox shows a change.
pub publish-Outcome :
    (s : Rooms) (now : ℕ) (room : String) (role : Role) (b : Blob)
    → PublishOutcome s room role b (publish s now room role b).0 (publish s now room role b).1
publish-Outcome s now room role b =
    publish_cases (λ p. PublishOutcome s room role b p.0 p.1) s now room role b
      (λ full. (inl (at_room_cap-RoomsFull s room full), refl))
      λ free.
        Outcome-enter s now room role b _ _ free
          (append-Outcome _ room _ (lookup-enter s now room) role b)

-- Marking a mailbox done returns its count of blobs and freezes it; nothing else shows a change.
pub mark_done-view :
    (s : Rooms) (now : ℕ) (room : String) (role : Role)
    → ((mark_done s now room role).0 ≡ length (view s room role).blobs)
      × (view (mark_done s now room role).1
          ≡ update (view s) room role (record { blobs = (view s room role).blobs; done = true }))
unfolding mark_done
mark_done-view s now room role = (
  rw (← enter-room s now room role),
  rw (← view-enter_all s now room) (mark-view _ room _ (lookup-enter s now room) role _ refl),
)
