-- ===== src/Signaling/LongPoll/Watching.antt =====
-- What the calls of the store of conformance/signaling/server/src/state.rs do to a mailbox on which
-- a fetch waits: each call leaves it as the fetch saw it, or calls its notifier.
use mathlib.Core.Path.{subst}
use wasi_webrtc_datachannels.Base.{
  ℕ, ◌≡◌, refl, sym, ap, ◌∙◌, String, false, none, some, List, [], ◌∷◌, ◌++◌, ◌==◌, nat_eq,
  string_eq, Bool-cases, Option-cases, ◌⊎◌, inl, inr, append_assoc,
}
use wasi_webrtc_datachannels.Base.Dict.{lookup, insert, lookup-insert, lookup-remove}
use wasi_webrtc_datachannels.Signaling.Mailbox.{
  Role, Blob, Room, Mailbox, mailbox, offerer, answerer,
}
use wasi_webrtc_datachannels.Signaling.Rooms.{
  Rooms, enter, append, mark_done, fetch_now, delete, delete_all, put_mailbox, wake, at_blob_cap,
  evict_expired, expired_keys, Op, publishes, marks, fetches, deletes, evicts, step,
}
use wasi_webrtc_datachannels.Signaling.Rooms.View.{enter_cases, lookup-enter}
use wasi_webrtc_datachannels.Signaling.Rooms.Publishing.{publish_cases}

abbrev pub In : ℕ → List ℕ → Type 0
In n [] = ⊥
In n (j ∷ ns) = (n ≡ j) ⊎ In n ns

In-append_left : (n : ℕ) (xs ys : List ℕ) → In n xs → In n (xs ++ ys)
In-append_left n (x ∷ xs) ys (inl e) = inl e
In-append_left n (x ∷ xs) ys (inr h) = inr (In-append_left n xs ys h)
In-append_left n [] ys h = absurd h

In-append_right : (n : ℕ) (xs ys : List ℕ) → In n ys → In n (xs ++ ys)
In-append_right n [] ys h = h
In-append_right n (x ∷ xs) ys h = inr (In-append_right n xs ys h)

module _ (room : String) (role : Role) (n : ℕ) (P : Mailbox → Type 0) where
  -- The mailbox is there, has the notifier `n`, and meets `P`.
  pub record Watched (s : Rooms) : Type 0 where
    pub entry : Room
    pub there : lookup room s.rooms ≡ some entry
    pub known : (mailbox entry role).notify ≡ n
    pub holds : P (mailbox entry role)

  -- From `s` to `t` the notifiers `fresh` were called, and the mailbox is watched still unless `n`
  -- is among them.
  pub record Moves (s t : Rooms) : Type 0 where
    pub fresh : List ℕ
    pub logged : t.calls ≡ fresh ++ s.calls
    pub kept : Watched s → Watched t ⊎ In n fresh

  Moves-trans : (s t u : Rooms) → Moves s t → Moves t u → Moves s u
  Moves-trans s t u f g = record {
    fresh = g.fresh ++ f.fresh;
    logged =
        g.logged ∙ (ap (λ l. g.fresh ++ l) f.logged ∙ sym (append_assoc g.fresh f.fresh s.calls));
    kept = λ w. elim (f.kept w) [
      | inr h ↦ inr (In-append_right n g.fresh f.fresh h)
      | inl w' ↦ elim (g.kept w') [
        | inl w'' ↦ inl w''
        | inr h ↦ inr (In-append_left n g.fresh f.fresh h)
      ]
    ];
  }

  Moves-refl : (s : Rooms) → Moves s s
  Moves-refl s = record { fresh = []; logged = refl; kept = λ w. inl w }

  -- A write of one entry keeps the mailbox watched, if it keeps the mailbox.
  insert-Watched :
      (s t : Rooms) (j : String) (r : Room)
      → t.rooms ≡ insert j r s.rooms
      → (w : Watched s) → (j ≡ room → mailbox r role ≡ mailbox w.entry role)
      → Watched t
  insert-Watched s t j r e w same = elim (Bool-cases (j == room)) [
    | inl on ↦
        let m = same ((string_eq.eq_iff j room).0 on) in
        record {
          entry = r;
          there = rw (e, lookup-insert, on);
          known = ap (λ (m : Mailbox). m.notify) m ∙ w.known;
          holds = subst P (sym m) w.holds;
        }
    | inr off ↦ record {
      entry = w.entry;
      there = rw (e, lookup-insert, off) w.there;
      known = w.known;
      holds = w.holds;
    }
  ]

  pub same_entry :
      (s : Rooms) (j : String) (r : Room) (w : Watched s)
      → lookup j s.rooms ≡ some r
      → j ≡ room
      → r ≡ w.entry
  same_entry s j r w e on =
      let at_room : some r ≡ some w.entry = sym e ∙ (ap (λ k. lookup k s.rooms) on ∙ w.there) in
      cc at_room

  notifier :
      {s : Rooms} (w : Watched s) (r : Room) (l : Role)
      → r ≡ w.entry
      → role ≡ l
      → n ≡ (mailbox r l).notify
  notifier w r l h x =
      sym w.known
      ∙ (ap (λ k. (mailbox w.entry k).notify) x ∙ ap (λ (r : Room). (mailbox r l).notify) (sym h))

  -- Entering a room touches its entry and calls nobody.
  pub enter-Moves : (s : Rooms) (now : ℕ) (j : String) → Moves s (enter s now j).1
  enter-Moves s now j =
      enter_cases (λ p. Moves s p.1) s now j
        (λ e. record {
          fresh = [];
          logged = refl;
          kept = λ w. inl (
              insert-Watched s _ j _ refl w
                (λ on. absurd (none_some (sym e ∙ (ap (λ k. lookup k s.rooms) on ∙ w.there)))));
        })
        (λ r e. record {
          fresh = [];
          logged = refl;
          kept = λ w. inl (
              insert-Watched s _ j _ refl w
                (λ on. touched r w.entry (same_entry s j r w e on) now));
        })
    where
      none_some : {r : Room} → none ≡ some r → ⊥
      none_some h = cc

      touched :
          (r r' : Room)
          → r ≡ r'
          → (now : ℕ) → mailbox (record r { last_touched = now }) role ≡ mailbox r' role
      touched r r' h now =
          elim role as (λ k. mailbox (record r { last_touched = now }) k ≡ mailbox r' k) [
            | offerer ↦ ap (λ (r : Room). r.offerer) h
            | answerer ↦ ap (λ (r : Room). r.answerer) h
          ]

  -- A write through `mailbox_mut`, with its notifier called, is no surprise to a fetch that waits.
  write-Moves :
      (s : Rooms) (j : String) (r : Room) (k : Role) (m : Mailbox)
      → lookup j s.rooms ≡ some r
      → Moves s (wake (put_mailbox s j r k m) (mailbox r k))
  unfolding wake put_mailbox
  write-Moves s j r k m e = record {
    fresh = (mailbox r k).notify ∷ [];
    logged = refl;
    kept = λ w. elim (Bool-cases (j == room)) [
      | inr off ↦ inl (insert-Watched s _ j _ refl w (λ on. absurd (clash off on)))
      | inl on ↦ by_role w k role refl (same_entry s j r w e ((string_eq.eq_iff j room).0 on))
    ];
  }
    where
      clash : (j == room) ≡ false → j ≡ room → ⊥
      clash off on = cc (sym off ∙ (string_eq.eq_iff j room).1 on)

      by_role :
          (w : Watched s) (k l : Role)
          → role ≡ l
          → r ≡ w.entry
          → Watched (wake (put_mailbox s j r k m) (mailbox r k)) ⊎ In n ((mailbox r k).notify ∷ [])
      by_role w offerer offerer x h = inr (inl (notifier w r offerer h x))
      by_role w answerer answerer x h = inr (inl (notifier w r answerer h x))
      by_role w offerer answerer x h = inl (
          insert-Watched s _ j _ refl w (λ on.
            ap (mailbox (record r { offerer = m })) x
            ∙ (ap (λ (r : Room). r.answerer) h ∙ ap (mailbox w.entry) (sym x))))
      by_role w answerer offerer x h = inl (
          insert-Watched s _ j _ refl w (λ on.
            ap (mailbox (record r { answerer = m })) x
            ∙ (ap (λ (r : Room). r.offerer) h ∙ ap (mailbox w.entry) (sym x))))

  append-Moves :
      (s : Rooms) (j : String) (k : Role) (b : Blob) (r : Room)
      → lookup j s.rooms ≡ some r
      → Moves s (append s j k b r).1
  unfolding append
  append-Moves s j k b r e = elim (Bool-cases (mailbox r k).done) [
    | inl d ↦ rw (d, append) (Moves-refl s)
    | inr d ↦ elim (Bool-cases (at_blob_cap s (mailbox r k))) [
      | inl full ↦ rw (d, append) (rw (full, append) (Moves-refl s))
      | inr left ↦ rw (d, append) (rw (left, append) (write-Moves s j r k _ e))
    ]
  ]

  -- Taking a room out calls both of its notifiers.
  delete-Moves : (s : Rooms) (j : String) → Moves s (delete s j).1
  unfolding delete wake
  delete-Moves s j = elim (Option-cases (lookup j s.rooms)) [
    | inl e ↦ rw (e, delete) (Moves-refl s)
    | inr (r, e) ↦
        rw (e, delete)
          (record {
            fresh = r.answerer.notify ∷ r.offerer.notify ∷ [];
            logged = refl;
            kept = λ w. elim (Bool-cases (j == room)) [
              | inl on ↦
                  inr (both w r (same_entry s j r w e ((string_eq.eq_iff j room).0 on)) role refl)
              | inr off ↦ inl (record {
                entry = w.entry;
                there = rw (lookup-remove, off) w.there;
                known = w.known;
                holds = w.holds;
              })
            ];
          })
  ]
    where
      both :
          (w : Watched s) (r : Room)
          → r ≡ w.entry
          → (l : Role) → role ≡ l
          → In n (r.answerer.notify ∷ r.offerer.notify ∷ [])
      both w r h offerer x = inr (inl (notifier w r offerer h x))
      both w r h answerer x = inl (notifier w r answerer h x)

  delete_all-Moves : (ks : List String) (s : Rooms) → Moves s (delete_all ks s)
  unfolding delete_all
  delete_all-Moves [] s = Moves-refl s
  delete_all-Moves (k ∷ ks) s =
      Moves-trans _ _ _ (delete-Moves s k) (delete_all-Moves ks (delete s k).1)

  -- Every call of the store leaves a mailbox as a fetch saw it, or calls its notifier.
  pub step-Moves : (s : Rooms) (o : Op) → Moves s (step s o)
  unfolding step mark_done fetch_now evict_expired
  step-Moves s (publishes now j k b) =
      publish_cases (λ p. Moves s p.1) s now j k b (λ full. Moves-refl s)
        (λ free.
          Moves-trans _ _ _ (enter-Moves s now j) (append-Moves _ j k b _ (lookup-enter s now j)))
  step-Moves s (marks now j k) =
      Moves-trans _ _ _ (enter-Moves s now j) (write-Moves _ j _ k _ (lookup-enter s now j))
  step-Moves s (fetches now j k i) = enter-Moves s now j
  step-Moves s (deletes j) = delete-Moves s j
  step-Moves s (evicts now) = delete_all-Moves (expired_keys s now s.rooms) s
