-- ===== src/Signaling/Rooms/Removal.antt =====
-- `delete` and `evict_expired` of conformance/signaling/server/src/state.rs.
use wasi_webrtc_datachannels.Base.{
  ℕ, ◌+◌, ◌≡◌, refl, sym, ap, ◌∙◌, String, Bool, true, false, List, [], ◌∷◌, length, ◌==◌,
  string_eq, nat_eq, if◌then◌else◌, arith, leb, ◌-◌, inl, inr, Option-cases,
}
use wasi_webrtc_datachannels.Base.Dict.{
  lookup, contains_key, remove, IsMap, contains_key-lookup, contains_key-remove, remove_absent,
  lookup-remove,
}
use wasi_webrtc_datachannels.Signaling.Mailbox.{Role, Room}
use wasi_webrtc_datachannels.Signaling.Rooms.{
  Rooms, delete, delete_all, wake, expired_keys, evict_expired, room_count,
}
use wasi_webrtc_datachannels.Signaling.Rooms.View.{nothing_posted, view}

remove_all : List String → List (String × Room) → List (String × Room)
remove_all [] m = m
remove_all (k ∷ ks) m = remove_all ks (remove k m)

-- The entries that a sweep leaves, in their order: those idle for the time to live at most.
pub live_entries : Rooms → ℕ → List (String × Room) → List (String × Room)
live_entries s now [] = []
live_entries s now ((k, r) ∷ m) =
    let rest = live_entries s now m in
    if leb (now - r.last_touched) s.limits.room_ttl then (k, r) ∷ rest else rest

pub rooms-delete :
    (s : Rooms) (room : String)
    → ((delete s room).0 ≡ contains_key room s.rooms)
      × ((delete s room).1.rooms ≡ remove room s.rooms)
      × ((delete s room).1.limits ≡ s.limits)
unfolding delete wake
rooms-delete s room = elim (Option-cases (lookup room s.rooms)) [
  | inl e ↦
      let gone = contains_key-lookup room s.rooms ∙ rw e refl in
      rw (e, delete) (sym gone, sym (remove_absent room s.rooms gone), refl)
  | inr (r, e) ↦ rw (e, delete) (sym (contains_key-lookup room s.rooms ∙ rw e refl), refl, refl)
]

rooms-delete_all :
    (ks : List String) (s : Rooms)
    → ((delete_all ks s).rooms ≡ remove_all ks s.rooms) × ((delete_all ks s).limits ≡ s.limits)
unfolding delete_all remove_all
rooms-delete_all [] s = (refl, refl)
rooms-delete_all (k ∷ ks) s =
    let ih = rooms-delete_all ks (delete s k).1 in
    (ih.0 ∙ ap (remove_all ks) (rooms-delete s k).1, ih.1 ∙ (rooms-delete s k).2)

contains : String → List String → Bool
contains k [] = false
contains k (j ∷ ks) = if j == k then true else contains k ks

expired_absent :
    (s : Rooms) (now : ℕ) (k : String) (m : List (String × Room))
    → contains_key k m ≡ false
    → contains k (expired_keys s now m) ≡ false
unfolding contains contains_key expired_keys
expired_absent s now k [] h = refl
expired_absent s now k ((j, r) ∷ m) h = ground (arith, expired_absent s now k m)

remove_all-cons :
    (ks : List String) (k : String) (r : Room) (m : List (String × Room))
    → contains k ks ≡ false
    → remove_all ks ((k, r) ∷ m) ≡ (k, r) ∷ remove_all ks m
unfolding contains remove_all remove
remove_all-cons [] k r m h = refl
remove_all-cons (j ∷ ks) k r m h =
    ground (arith, string_eq.eq_iff k j, string_eq.eq_iff j k, remove_all-cons ks k r (remove j m))

remove_all-live :
    (s : Rooms) (now : ℕ) (m : List (String × Room))
    → IsMap m
    → remove_all (expired_keys s now m) m ≡ live_entries s now m
unfolding remove_all expired_keys live_entries remove
remove_all-live s now [] h = refl
remove_all-live s now ((k, r) ∷ m) h = ground (
  arith,
  string_eq.eq_iff k k,
  remove_absent k m h.0,
  remove_all-live s now m h.1,
  remove_all-cons (expired_keys s now m) k r m (expired_absent s now k m h.0),
)

length-expired :
    (s : Rooms) (now : ℕ) (m : List (String × Room))
    → length (expired_keys s now m) + length (live_entries s now m) ≡ length m
unfolding expired_keys live_entries
length-expired s now [] = omega arith
length-expired s now ((k, r) ∷ m) = ground (arith, length-expired s now m)

-- On a store that holds a room at most once, a sweep takes out exactly the entries idle for longer
-- than the time to live, leaves all others as they stand, and returns how many it took.
pub evict_expired-live :
    (s : Rooms) (now : ℕ)
    → IsMap s.rooms
    → ((evict_expired s now).1.rooms ≡ live_entries s now s.rooms)
      × ((evict_expired s now).0 + room_count (evict_expired s now).1 ≡ room_count s)
unfolding evict_expired room_count
evict_expired-live s now h =
    let left =
      (rooms-delete_all (expired_keys s now s.rooms) s).0 ∙ remove_all-live s now s.rooms h in
    (left, omega (arith, ap (length {A = String × Room}) left, length-expired s now s.rooms))

live_entries_absent :
    (s : Rooms) (now : ℕ) (k : String) (m : List (String × Room))
    → contains_key k m ≡ false
    → contains_key k (live_entries s now m) ≡ false
unfolding contains_key live_entries
live_entries_absent s now k [] h = refl
live_entries_absent s now k ((j, r) ∷ m) h = ground (arith, live_entries_absent s now k m)

pub live_entries-IsMap :
    (s : Rooms) (now : ℕ) (m : List (String × Room)) → IsMap m → IsMap (live_entries s now m)
unfolding live_entries
live_entries-IsMap s now [] h = tt
live_entries-IsMap s now ((k, r) ∷ m) h =
    ground (arith, live_entries-IsMap s now m h.1, live_entries_absent s now k m h.0)

-- What a sweep leaves of a room that it leaves is all of it.
lookup-live_entries :
    (s : Rooms) (now : ℕ) (j : String) (m : List (String × Room))
    → IsMap m
    → contains_key j (live_entries s now m) ≡ true
    → lookup j (live_entries s now m) ≡ lookup j m
unfolding lookup contains_key live_entries
lookup-live_entries s now j [] h c = refl
lookup-live_entries s now j ((k, r) ∷ m) h c = ground (
  arith,
  string_eq.eq_iff k j,
  live_entries_absent s now k m h.0,
  lookup-live_entries s now j m h.1,
)

view-lookup :
    (s t : Rooms) (j : String) (role : Role)
    → lookup j t.rooms ≡ lookup j s.rooms
    → view t j role ≡ view s j role
unfolding view
view-lookup s t j role e = rw e

-- A room that is there after a `delete` or a sweep was not touched by it.
pub view-delete_other :
    (s : Rooms) (room j : String) (role : Role)
    → contains_key j (delete s room).1.rooms ≡ true
    → view (delete s room).1 j role ≡ view s j role
view-delete_other s room j role c =
    view-lookup s (delete s room).1 j role
      (rw ((rooms-delete s room).1) (kept (rw ((rooms-delete s room).1) at c)))
  where
    kept :
        contains_key j (remove room s.rooms) ≡ true
        → lookup j (remove room s.rooms) ≡ lookup j s.rooms
    kept c' = ground (arith, contains_key-remove room j s.rooms, lookup-remove room j s.rooms)

pub view-evict_other :
    (s : Rooms) (now : ℕ) (j : String) (role : Role)
    → IsMap s.rooms
    → contains_key j (evict_expired s now).1.rooms ≡ true
    → view (evict_expired s now).1 j role ≡ view s j role
view-evict_other s now j role h c =
    let left = (evict_expired-live s now h).0 in
    view-lookup s (evict_expired s now).1 j role
      (rw left (lookup-live_entries s now j s.rooms h (rw left at c)))

pub limits-evict_expired : (s : Rooms) (now : ℕ) → (evict_expired s now).1.limits ≡ s.limits
unfolding evict_expired
limits-evict_expired s now = (rooms-delete_all (expired_keys s now s.rooms) s).1

-- A room that is not there shows nothing.
pub view_absent :
    (s : Rooms) (j : String) (role : Role)
    → contains_key j s.rooms ≡ false
    → view s j role ≡ nothing_posted
unfolding view
view_absent s j role h = ground (arith, contains_key-lookup j s.rooms)
