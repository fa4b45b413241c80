-- ===== src/Signaling/Http/Handlers.antt =====
-- The handlers of conformance/signaling/server/src/lib.rs over the store.
use wasi_webrtc_datachannels.Base.{
  string_eq, ℕ, ◌≡◌, ◌≢◌, refl, subst, String, true, false, some, List, length, ltb, nat_eq,
  Bool-cases, Option-cases, inl, inr, if_cases,
}
use wasi_webrtc_datachannels.Base.Dict.{IsMap}
use wasi_webrtc_datachannels.Base.Text.{bytes, parse_usize}
use wasi_webrtc_datachannels.Signaling.Mailbox.{Role, Blob, Publish, parse_role, blob}
use wasi_webrtc_datachannels.Signaling.Rooms.{Rooms, publish, fetch_now, Op, run}
use wasi_webrtc_datachannels.Signaling.Rooms.View.{view}
use wasi_webrtc_datachannels.Signaling.Rooms.Publishing.{PublishOutcome, publish-Outcome}
use wasi_webrtc_datachannels.Signaling.Rooms.Stability.{Survives, publish-fetch_now}
use wasi_webrtc_datachannels.Signaling.LongPoll.{Notify, Poll, begin, poll, start, returned}
use wasi_webrtc_datachannels.Signaling.Http.{
  Config, Response, json, seq, octets, too_large, bad_request, valid_room, with_role, published,
  post_publish, get_fetch, polling, fetched,
}

-- The five ways through `publish`.
post_publish_cases {ℓ} :
    (P : Response × Rooms → Type ℓ) (c : Config) (s : Rooms) (now : ℕ) (room role : String)
    (b : Blob)
    → P (bad_request "bad-room", s)
    → P (bad_request "bad-role", s)
    → P (json 413 (too_large c.max_blob_bytes), s)
    → ((r : Role)
        → valid_room room ≡ true
        → parse_role role ≡ some r
        → P (published (publish s now room r b).0, (publish s now room r b).1))
    → P (post_publish c s now room role b)
unfolding post_publish with_role
post_publish_cases P c s now room role b bad_room bad_role large go =
    elim (Bool-cases (valid_room room)) [
      | inr v ↦ rw v bad_room
      | inl v ↦ elim (Option-cases (parse_role role)) [
        | inl e ↦ rw (v, e, post_publish) bad_role
        | inr (r, e) ↦
            rw (v, e, post_publish)
              (if_cases P (ltb c.max_blob_bytes (length b)) _ _ (λ over. large) (λ fits. go r v e))
      ]
    ]

-- A publish request that is not answered 200 changes nothing that clients can see.
pub post_publish-view :
    (c : Config) (s : Rooms) (now : ℕ) (room role : String) (b : Blob)
    → (post_publish c s now room role b).0.status ≢ 200
    → view (post_publish c s now room role b).1 ≡ view s
post_publish-view c s now room role b =
    post_publish_cases (λ w. w.0.status ≢ 200 → view w.1 ≡ view s) c s now room role b (λ h. refl)
      (λ h. refl) (λ h. refl)
      (λ r v e.
        same (publish s now room r b).0 (publish s now room r b).1 r
          (publish-Outcome s now room r b))
  where
    same :
        (p : Publish) (t : Rooms) (r : Role)
        → PublishOutcome s room r b p t
        → (published p).status ≢ 200
        → view t ≡ view s
    same (Publish.seq n) t r o h = absurd (h refl)
    same Publish.done t r o h = o.2
    same Publish.capacity t r o h = o.1

-- What a publish request that is answered with a number has done.
post_publish_inv :
    (c : Config) (s : Rooms) (now n : ℕ) (room role : String) (b : Blob)
    → (post_publish c s now room role b).0.body ≡ seq n
    → (r : Role) × (valid_room room ≡ true)
      × (parse_role role ≡ some r)
      × ((publish s now room r b).0 ≡ Publish.seq n)
      × ((post_publish c s now room role b).1 ≡ (publish s now room r b).1)
post_publish_inv c s now n room role b =
    post_publish_cases
      (λ w.
        w.0.body ≡ seq n
        → (r : Role) × (valid_room room ≡ true)
          × (parse_role role ≡ some r)
          × ((publish s now room r b).0 ≡ Publish.seq n)
          × (w.1 ≡ (publish s now room r b).1))
      c s now room role b (λ h. absurd (cc h)) (λ h. absurd (cc h)) (λ h. absurd (cc h))
      (λ r v e h. (r, v, e, numbered (publish s now room r b).0 h, refl))
  where
    numbered : (p : Publish) → (published p).body ≡ seq n → p ≡ Publish.seq n
    numbered (Publish.seq m) h = cc h
    numbered Publish.done h = cc h
    numbered Publish.capacity h = cc h

get_fetch_ok :
    (c : Config) (now n wait : ℕ) (room role text : String) (r : Role)
    → valid_room room ≡ true
    → parse_role role ≡ some r
    → parse_usize 64 (bytes text) ≡ some n
    → get_fetch c now room role (some text) (some wait) ≡ polling (begin now room r n wait)
unfolding get_fetch
get_fetch_ok c now n wait room role text r v e d = rw (v, e, d, get_fetch)

poll_blob :
    (notify : Notify) (p : Poll) (now : ℕ) (s : Rooms) (b : Blob)
    → (fetch_now s now p.room p.role p.seq).0.0 ≡ blob b
    → (poll notify p now s start).0 ≡ returned (blob b)
unfolding poll
poll_blob notify p now s b e = rw e

-- A blob whose publish was answered with a number: after any calls of the store that leave the room
-- there, a fetch request for that number, whatever its wait, is answered at its first poll by
-- status 200, that number and the blob's bytes.
pub post-get :
    (notify : Notify) (c : Config) (s : Rooms) (now later n wait : ℕ) (room role text : String)
    (b : Blob) (os : List Op)
    → IsMap s.rooms
    → (post_publish c s now room role b).0.body ≡ seq n
    → ((r : Role) → Survives room r (post_publish c s now room role b).1 os)
    → parse_usize 64 (bytes text) ≡ some n
    → (p : Poll) × (get_fetch c later room role (some text) (some wait) ≡ polling p)
      × ((poll notify p later (run (post_publish c s now room role b).1 os) start).0
          ≡ returned (blob b))
      × (fetched n (blob b)
          ≡ record { status = 200; x_seq = some n; x_done = false; body = octets b })
unfolding fetched
post-get notify c s now later n wait room role text b os h posted keeps parsed =
    let (r, v, e, numbered, same) = post_publish_inv c s now n room role b posted in
    let keeps' = subst (λ t. Survives room r t os) same (keeps r) in
    let p = begin later room r n wait in
    (
      p,
      get_fetch_ok c later n wait room role text r v e parsed,
      rw same (
          poll_blob notify p later _ b
            (unfold begin in publish-fetch_now s now later room r b n os h numbered keeps')),
      refl,
    )
