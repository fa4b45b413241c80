-- ===== src/Signaling/Rooms/Stability.antt =====
-- Fetches of conformance/signaling/server/src/state.rs are stable: what was once fetched from a room
-- stays what a fetch returns, as long as the room is not taken out.
use wasi_webrtc_datachannels.Base.{
  ℕ, ◌≡◌, ◌≢◌, refl, sym, ◌∙◌, String, true, List, [], ◌∷◌, string_eq, nat_eq, inl, inr, Bool-cases,
  false≢true, append-nil, ==_refl, Option-cases, get_elem?, get_elem?-append, get_elem?-append_end,
  subst,
}
use wasi_webrtc_datachannels.Base.Dict.{contains_key, IsMap}
use wasi_webrtc_datachannels.Signaling.Mailbox.{
  Role, Blob, Publish, offerer, answerer, classify, peek, blob, pending,
}
use wasi_webrtc_datachannels.Signaling.Rooms.{
  Rooms, publish, fetch_now, Op, publishes, marks, fetches, deletes, evicts, step, run,
}
use wasi_webrtc_datachannels.Signaling.Rooms.View.{Posted, view, enter-room, same_role}
use wasi_webrtc_datachannels.Signaling.Rooms.Publishing.{
  PublishOutcome, publish-Outcome, mark_done-view, view-enter_all,
}
use wasi_webrtc_datachannels.Signaling.Rooms.Removal.{view-delete_other, view-evict_other}
use wasi_webrtc_datachannels.Signaling.Rooms.History.{
  step-IsMap, Extends, Extends-refl, Extends-eq, Extends-trans, update-Extends,
}

publish-Extends :
    (s : Rooms) (room : String) (role : Role) (b : Blob) (p : Publish) (s' : Rooms)
    → PublishOutcome s room role b p s'
    → (j : String) (k : Role) → Extends (view s j k) (view s' j k)
publish-Extends s room role b (Publish.seq n) s' o j k = rw (o.4) (
    update-Extends (view s) room j role k _
      (record { extra = b ∷ []; grown = refl; frozen = λ d. absurd (false≢true (sym o.2 ∙ d)) }))
publish-Extends s room role b Publish.done s' o j k = Extends-eq _ _ (rw (o.2))
publish-Extends s room role b Publish.capacity s' o j k = Extends-eq _ _ (rw (o.1))

module _ (room : String) (role : Role) where
  -- A room that is there after a call shows at least what it showed before.
  step-Extends :
      (s : Rooms) (o : Op)
      → IsMap s.rooms
      → contains_key room (step s o).rooms ≡ true
      → Extends (view s room role) (view (step s o) room role)
  unfolding step
  step-Extends s (publishes now j k b) h c =
      publish-Extends s j k b _ _ (publish-Outcome s now j k b) room role
  step-Extends s (marks now j k) h c = rw ((mark_done-view s now j k).1) (
      update-Extends (view s) j room k role _
        (record { extra = []; grown = sym (append-nil _); frozen = λ d. cc }))
  step-Extends s (fetches now j k n) h c = unfold fetch_now in Extends-eq _ _ (rw view-enter_all)
  step-Extends s (deletes j) h c = Extends-eq _ _ (view-delete_other s j room role c)
  step-Extends s (evicts now) h c = Extends-eq _ _ (view-evict_other s now room role h c)

  -- The room is there after every call of the history.
  abbrev pub Survives : Rooms → List Op → Type 0
  Survives s [] = Unit
  Survives s (o ∷ os) = (contains_key room (step s o).rooms ≡ true) × Survives (step s o) os

  pub run-Extends :
      (s : Rooms) (os : List Op)
      → IsMap s.rooms
      → Survives s os
      → Extends (view s room role) (view (run s os) room role)
  unfolding run
  run-Extends s [] h c = Extends-refl _
  run-Extends s (o ∷ os) h c =
      Extends-trans _ _ _ (step-Extends s o h c.0)
        (run-Extends (step s o) os (step-IsMap s o h) c.1)

-- A fetch is classified by what the store shows.
pub fetch_now-view :
    (s : Rooms) (now : ℕ) (room : String) (role : Role) (n : ℕ)
    → (fetch_now s now room role n).0.0
      ≡ classify (get_elem? (view s room role).blobs n) (view s room role).done
unfolding fetch_now peek
fetch_now-view s now room role n = rw (← enter-room s now room role)

classify-Extends :
    (p q : Posted) (n : ℕ)
    → Extends p q
    → classify (get_elem? p.blobs n) p.done ≢ pending
    → classify (get_elem? q.blobs n) q.done ≡ classify (get_elem? p.blobs n) p.done
classify-Extends p q n x h = elim (Option-cases (get_elem? p.blobs n)) [
  | inr (b, e) ↦ rw (x.grown, get_elem?-append p.blobs x.extra n e, e)
  | inl e ↦ elim (Bool-cases p.done) [ inl d ↦ rw (x.frozen d) | inr d ↦ absurd (h (rw (e, d))) ]
]

-- Fetches are idempotent: a fetch that returned a blob, or that there will be none, returns the
-- same after any calls of the store, as long as the room is there after each of them.
pub fetch_now_again :
    (s : Rooms) (now later : ℕ) (room : String) (role : Role) (n : ℕ) (os : List Op)
    → IsMap s.rooms
    → Survives room role s os
    → (fetch_now s now room role n).0.0 ≢ pending
    → (fetch_now (run s os) later room role n).0.0 ≡ (fetch_now s now room role n).0.0
fetch_now_again s now later room role n os h c p =
    rw (fetch_now-view, fetch_now-view)
      (classify-Extends _ _ n (run-Extends room role s os h c) (rw fetch_now-view at p))

pub published_blob :
    (s : Rooms) (room : String) (role : Role) (b : Blob) (n : ℕ) (s' : Rooms) (now : ℕ)
    → PublishOutcome s room role b (Publish.seq n) s'
    → (fetch_now s' now room role n).0.0 ≡ blob b
published_blob s room role b n s' now o =
    rw (fetch_now-view, o.4)
      (rw (==_refl room, same_role_refl role, o.3, get_elem?-append_end (view s room role).blobs b))
  where
    same_role_refl : (k : Role) → same_role k k ≡ true
    same_role_refl offerer = refl
    same_role_refl answerer = refl

-- A blob that was published under a number is what a fetch of that number returns after any further
-- calls of the store, as long as the room is still there after each of them. The store holds a room
-- at most once.
pub publish-fetch_now :
    (s : Rooms) (now later : ℕ) (room : String) (role : Role) (b : Blob) (n : ℕ) (os : List Op)
    → IsMap s.rooms
    → (publish s now room role b).0 ≡ Publish.seq n
    → Survives room role (publish s now room role b).1 os
    → (fetch_now (run (publish s now room role b).1 os) later room role n).0.0 ≡ blob b
publish-fetch_now s now later room role b n os h e c =
    fetch_now_again s' now later room role n os (unfold step in step-IsMap s op h) c
      (λ p. blob_ne_pending (sym first ∙ p))
    ∙ first
  where
    op : Op
    op = publishes now room role b

    s' : Rooms
    s' = (publish s now room role b).1

    blob_ne_pending : blob b ≡ pending → ⊥
    blob_ne_pending q = cc

    first : (fetch_now s' now room role n).0.0 ≡ blob b
    first =
        published_blob s room role b n s' now
          (subst (λ p. PublishOutcome s room role b p s') e (publish-Outcome s now room role b))
