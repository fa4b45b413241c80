-- ===== src/Signaling/LongPoll/LostWake.antt =====
-- The one interleaving at which the blocking fetch of conformance/signaling/server/src/state.rs
-- misses a wake: its room is taken out after the first peek. The second peek opens the room anew
-- and drops the notifier that it gets, so the fetch waits on one that nobody calls again.
use wasi_webrtc_datachannels.Base.{
  ℕ, ◌+◌, ◌-◌, ◌≡◌, ◌<◌, ◌≢◌, refl, String, false, none, some, List, [], ◌∷◌, length, nat_eq,
  string_eq, arith, ==_refl, subst,
}
use wasi_webrtc_datachannels.Base.Dict.{lookup, insert, lookup-insert}
use wasi_webrtc_datachannels.Signaling.Mailbox.{
  Role, Blob, Room, Publish, blob, pending, peek, new_room, offerer, answerer,
}
use wasi_webrtc_datachannels.Signaling.Rooms.{
  Rooms, enter, append, fetch_now, publish, wake, put_mailbox, at_room_cap, at_blob_cap, publishes,
  step,
}
use wasi_webrtc_datachannels.Signaling.Rooms.Publishing.{PublishOutcome, publish-Outcome}
use wasi_webrtc_datachannels.Signaling.Rooms.Stability.{published_blob}
use wasi_webrtc_datachannels.Signaling.LongPoll.{
  Notify, peeked, parked, Poll, since, poll, call, polls, advance, advance_all,
}

-- The two mailboxes of the room that an `enter` opens have notifiers that nobody had before.
abbrev fresh_notify : ℕ → Role → ℕ
fresh_notify k offerer = k
fresh_notify k answerer = k + 1

enter_absent :
    (s : Rooms) (now : ℕ) (room : String)
    → lookup room s.rooms ≡ none
    → enter s now room ≡ (
      new_room now s.next_notify,
      record s {
        rooms = insert room (new_room now s.next_notify) s.rooms;
        next_notify = s.next_notify + 2;
      },
    )
unfolding enter
enter_absent s now room e = rw (e, enter)

enter_present :
    (s : Rooms) (now : ℕ) (room : String) (r : Room)
    → lookup room s.rooms ≡ some r
    → enter s now room ≡ (
      record r { last_touched = now },
      record s { rooms = insert room (record r { last_touched = now }) s.rooms },
    )
unfolding enter
enter_present s now room r e = rw (e, enter)

not_capped : (s : Rooms) (room : String) → s.limits.max_rooms ≡ 0 → at_room_cap s room ≡ false
unfolding at_room_cap
not_capped s room c = ground arith

module _ (s : Rooms) (room : String) (absent : lookup room s.rooms ≡ none) where
  -- The store after the second peek, which opened the room again.
  abbrev reopened : ℕ → Rooms
  reopened now = record s {
    rooms = insert room (new_room now s.next_notify) s.rooms;
    next_notify = s.next_notify + 2;
  }

  fetch_reopens :
      (now : ℕ) (role : Role)
      → ((fetch_now s now room role 0).0.0 ≡ pending)
        × ((fetch_now s now room role 0).1 ≡ reopened now)
  unfolding fetch_now peek
  fetch_reopens now offerer = rw (enter_absent s now room absent, fetch_now) (refl, refl)
  fetch_reopens now answerer = rw (enter_absent s now room absent, fetch_now) (refl, refl)

  publish-reopened :
      (now later : ℕ) (role : Role) (b : Blob)
      → s.limits.max_rooms ≡ 0
      → s.limits.max_blobs_per_mailbox ≡ 0
      → let (q, t) = publish (reopened now) later room role b in
        (q ≡ Publish.seq 0) × (t.calls ≡ fresh_notify s.next_notify role ∷ s.calls)
  unfolding publish append at_blob_cap wake put_mailbox
  publish-reopened now later offerer b c d =
      let there : lookup room (reopened now).rooms ≡ some (new_room now s.next_notify) =
        rw (lookup-insert, ==_refl room) in
      rw (enter_present (reopened now) later room _ there, publish)
        (rw (not_capped (reopened now) room c) (ground arith))
  publish-reopened now later answerer b c d =
      let there : lookup room (reopened now).rooms ≡ some (new_room now s.next_notify) =
        rw (lookup-insert, ==_refl room) in
      rw (enter_present (reopened now) later room _ there, publish)
        (rw (not_capped (reopened now) room c) (ground arith))

fresh_other : (n k : ℕ) (role : Role) → n < k → n ≢ fresh_notify k role
fresh_other n k offerer h e = omega arith
fresh_other n k answerer h e = omega arith

since_new : (x : ℕ) (calls : List ℕ) → since (length calls) (x ∷ calls) ≡ x ∷ []
since_new x calls = let e : length (x ∷ calls) - length calls ≡ 1 = omega arith in rw e

module _ (notify : Notify) (p : Poll) (s : Rooms) where
  still_parked :
      (t : Rooms) (n mark until now x : ℕ)
      → since mark t.calls ≡ x ∷ []
      → n ≢ x
      → now < until
      → (poll notify p now t (parked n mark until)).0 ≡ parked n mark until
  unfolding poll
  still_parked t n mark until now x e ne early =
      rw (e, notify.others n x [] ne, notify.waits n) (ground arith)

  -- A fetch of the first blob has peeked, holding the notifier `n`, and then its room was taken out.
  -- It registers, peeks again, and parks; the peer publishes the blob into the new room. A fetch
  -- would now return the blob, and still the poll leaves this one parked until its wait is over.
  pub lost_wake :
      (b : Blob) (n left t1 t2 t3 t4 : ℕ)
      → lookup p.room s.rooms ≡ none
      → n < s.next_notify
      → s.limits.max_rooms ≡ 0
      → s.limits.max_blobs_per_mailbox ≡ 0
      → p.seq ≡ 0
      → t4 < t2 + left
      → let events = polls t1 ∷ polls t2 ∷ call (publishes t3 p.room p.role b) ∷ [] in
        let (f, t) = advance_all notify p (peeked n left, s) events in
        (f ≡ parked n (length s.calls) (t2 + left))
        × ((fetch_now t t4 p.room p.role p.seq).0.0 ≡ blob b)
        × ((poll notify p t4 t f).0 ≡ f)
  unfolding advance_all advance poll step
  lost_wake b n left t1 t2 t3 t4 absent old c d first early =
      let (pends, there) = fetch_reopens s p.room absent t2 p.role in
      let (q, calls) = publish-reopened s p.room absent t2 t3 p.role b c d in
      let s' = reopened s p.room absent t2 in
      let t = (publish s' t3 p.room p.role b).1 in
      rw (first, pends, there)
        (
          refl,
          published_blob s' p.room p.role b 0 t t4 (
              subst (λ q. PublishOutcome s' p.room p.role b q t) q
                (publish-Outcome s' t3 p.room p.role b)),
          still_parked t n (length s.calls) (t2 + left) t4 (fresh_notify s.next_notify p.role)
              (rw calls (since_new _ s.calls)) (fresh_other n s.next_notify p.role old) early,
        )
