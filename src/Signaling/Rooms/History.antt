-- ===== src/Signaling/Rooms/History.antt =====
-- What histories of calls on the store of conformance/signaling/server/src/state.rs keep.
use wasi_webrtc_datachannels.Base.{
  ℕ, ◌≡◌, refl, sym, ap, ◌∙◌, String, true, List, [], ◌∷◌, ◌++◌, ◌==◌, string_eq, nat_eq,
  if◌then◌else◌, arith, inl, inr, Bool-cases, append-nil, append_assoc, ◌&&◌, subst,
}
use wasi_webrtc_datachannels.Base.Dict.{IsMap, insert-IsMap, remove-IsMap}
use wasi_webrtc_datachannels.Signaling.Mailbox.{
  Role, Blob, Room, mailbox, offerer, answerer, set_mailbox,
}
use wasi_webrtc_datachannels.Signaling.Rooms.{
  Rooms, enter, append, mark_done, fetch_now, put_mailbox, wake, Op, publishes, marks, fetches,
  deletes, evicts, step,
}
use wasi_webrtc_datachannels.Signaling.Rooms.View.{Posted, update, enter_cases, same_role}
use wasi_webrtc_datachannels.Signaling.Rooms.Publishing.{publish_cases}
use wasi_webrtc_datachannels.Signaling.Rooms.Removal.{
  live_entries-IsMap, rooms-delete, evict_expired-live,
}

-- No call leaves two entries for one room.
enter-IsMap :
    (s : Rooms) (now : ℕ) (room : String) → IsMap s.rooms → IsMap (enter s now room).1.rooms
enter-IsMap s now room h =
    enter_cases (λ p. IsMap p.1.rooms) s now room (λ e. insert-IsMap room _ s.rooms h)
      (λ r e. insert-IsMap room _ s.rooms h)

append-IsMap :
    (s : Rooms) (room : String) (role : Role) (b : Blob) (r : Room)
    → IsMap s.rooms
    → IsMap (append s room role b r).1.rooms
unfolding append put_mailbox wake
append-IsMap s room role b r h = ground (
  arith,
  insert-IsMap room
      (set_mailbox r role (record (mailbox r role) { blobs = (mailbox r role).blobs ++ b ∷ [] }))
      s.rooms h,
)

pub step-IsMap : (s : Rooms) (o : Op) → IsMap s.rooms → IsMap (step s o).rooms
unfolding step mark_done fetch_now put_mailbox wake
step-IsMap s (publishes now room role b) h =
    publish_cases (λ p. IsMap p.1.rooms) s now room role b (λ full. h)
      (λ free. append-IsMap _ room role b _ (enter-IsMap s now room h))
step-IsMap s (marks now room role) h = insert-IsMap room _ _ (enter-IsMap s now room h)
step-IsMap s (fetches now room role n) h = enter-IsMap s now room h
step-IsMap s (deletes room) h = rw ((rooms-delete s room).1) (remove-IsMap room s.rooms h)
step-IsMap s (evicts now) h =
    rw ((evict_expired-live s now h).0) (live_entries-IsMap s now s.rooms h)

-- The blobs may have grown at the end, and not at all if the mailbox was done.
pub record Extends (p q : Posted) : Type 0 where
  pub extra : List Blob
  pub grown : q.blobs ≡ p.blobs ++ extra
  pub frozen : p.done ≡ true → q ≡ p

pub Extends-refl : (p : Posted) → Extends p p
Extends-refl p = record { extra = []; grown = sym (append-nil p.blobs); frozen = λ d. refl }

pub Extends-eq : (p q : Posted) → q ≡ p → Extends p q
Extends-eq p q e = subst (Extends p) (sym e) (Extends-refl p)

pub Extends-trans : (p q r : Posted) → Extends p q → Extends q r → Extends p r
Extends-trans p q r f g = record {
  extra = f.extra ++ g.extra;
  grown = g.grown ∙ ap (λ l. l ++ g.extra) f.grown ∙ append_assoc p.blobs f.extra g.extra;
  frozen = λ d. g.frozen (ap (λ (x : Posted). x.done) (f.frozen d) ∙ d) ∙ f.frozen d;
}

-- An update at one mailbox that extends it extends every mailbox.
pub update-Extends :
    (v : String → Role → Posted) (room j : String) (role k : Role) (p : Posted)
    → Extends (v room role) p
    → Extends (v j k) (update v room role p j k)
update-Extends v room j role k p h = elim (Bool-cases (room == j)) [
  | inr off ↦ rw off (Extends-refl (v j k))
  | inl on ↦ rw on (same_room role k (rw ((string_eq.eq_iff room j).0 on) at h))
]
  where
    same_room :
        (role k : Role)
        → Extends (v j role) p
        → Extends (v j k) (if true && same_role role k then p else v j k)
    same_room offerer offerer h = h
    same_room answerer answerer h = h
    same_room offerer answerer h = Extends-refl (v j answerer)
    same_room answerer offerer h = Extends-refl (v j offerer)
