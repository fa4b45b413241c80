-- ===== src/Signaling/Rooms/View.antt =====
-- What clients can see of the store of conformance/signaling/server/src/state.rs: for each room and
-- role the blobs and the `done` flag, a room that is not there being empty.
use wasi_webrtc_datachannels.Base.{
  ℕ, ◌+◌, ◌≡◌, String, Bool, true, false, Option, none, some, List, [], ◌==◌, string_eq, nat_eq,
  if◌then◌else◌, arith, inl, inr, Option-cases, ◌&&◌,
}
use wasi_webrtc_datachannels.Base.Dict.{lookup, insert, dict_laws}
use wasi_webrtc_datachannels.Signaling.Mailbox.{
  Role, Blob, Mailbox, Room, mailbox, offerer, answerer, new_room,
}
use wasi_webrtc_datachannels.Signaling.Rooms.{Rooms, enter, put_mailbox}

abbrev pub same_role : Role → Role → Bool
same_role offerer offerer = true
same_role answerer answerer = true
same_role offerer answerer = false
same_role answerer offerer = false

pub record Posted : Type 0 where
  pub blobs : List Blob
  pub done : Bool

abbrev pub nothing_posted : Posted
nothing_posted = record { blobs = []; done = false }

abbrev pub posted : Mailbox → Posted
posted m = record { blobs = m.blobs; done = m.done }

abbrev posted_in : Role → Option Room → Posted
posted_in role none = nothing_posted
posted_in role (some r) = posted (mailbox r role)

unfoldable pub view : Rooms → String → Role → Posted
view s room role = posted_in role (lookup room s.rooms)

-- What `view` shows at one room and role, in place of what was there.
abbrev pub update : (String → Role → Posted) → String → Role → Posted → String → Role → Posted
update v room role p room' role' =
    if room == room' && same_role role role' then p else v room' role'

-- Either the room is new, or its entry is touched.
pub enter_cases {ℓ} :
    (P : Room × Rooms → Type ℓ) (s : Rooms) (now : ℕ) (room : String)
    → (lookup room s.rooms ≡ none
        → let r = new_room now s.next_notify in
          P (r, record s { rooms = insert room r s.rooms; next_notify = s.next_notify + 2 }))
    → ((r : Room)
        → lookup room s.rooms ≡ some r
        → let r' = record r { last_touched = now } in
          P (r', record s { rooms = insert room r' s.rooms }))
    → P (enter s now room)
unfolding enter
enter_cases P s now room absent present = elim (Option-cases (lookup room s.rooms)) [
  | inl e ↦ rw (e, enter) (absent e)
  | inr (r, e) ↦ rw (e, enter) (present r e)
]

-- `enter` shows the mailboxes that were there.
pub view-enter :
    (s : Rooms) (now : ℕ) (room j : String) (role : Role)
    → view (enter s now room).1 j role ≡ view s j role
unfolding view
view-enter s now room j offerer =
    enter_cases (λ p. view p.1 j offerer ≡ view s j offerer) s now room
      (λ e. simp dict_laws (ground (arith, string_eq.eq_iff room j)))
      (λ r e. simp dict_laws (ground (arith, string_eq.eq_iff room j)))
view-enter s now room j answerer =
    enter_cases (λ p. view p.1 j answerer ≡ view s j answerer) s now room
      (λ e. simp dict_laws (ground (arith, string_eq.eq_iff room j)))
      (λ r e. simp dict_laws (ground (arith, string_eq.eq_iff room j)))

pub enter-room :
    (s : Rooms) (now : ℕ) (room : String) (role : Role)
    → posted (mailbox (enter s now room).0 role) ≡ view s room role
unfolding view enter
enter-room s now room offerer = ground arith
enter-room s now room answerer = ground arith

-- The entry that `enter` returns is the one in the map.
pub lookup-enter :
    (s : Rooms) (now : ℕ) (room : String)
    → lookup room (enter s now room).1.rooms ≡ some (enter s now room).0
lookup-enter s now room =
    enter_cases (λ p. lookup room p.1.rooms ≡ some p.0) s now room
      (λ e. simp dict_laws (ground (arith, string_eq.eq_iff room room)))
      (λ r e. simp dict_laws (ground (arith, string_eq.eq_iff room room)))

pub view-put_mailbox :
    (s : Rooms) (room j : String) (r : Room) (role k : Role) (m : Mailbox)
    → lookup room s.rooms ≡ some r
    → view (put_mailbox s room r role m) j k ≡ update (view s) room role (posted m) j k
unfolding view put_mailbox
view-put_mailbox s room j r offerer offerer m e =
    simp dict_laws (ground (arith, string_eq.eq_iff room j))
view-put_mailbox s room j r offerer answerer m e =
    simp dict_laws (ground (arith, string_eq.eq_iff room j))
view-put_mailbox s room j r answerer offerer m e =
    simp dict_laws (ground (arith, string_eq.eq_iff room j))
view-put_mailbox s room j r answerer answerer m e =
    simp dict_laws (ground (arith, string_eq.eq_iff room j))
