-- ===== src/Signaling/LongPoll/Guard.antt =====
-- What a fetch of conformance/signaling/server/src/state.rs relies on while it waits: until its
-- notifier is called, the mailbox stays as the fetch saw it.
use wasi_webrtc_datachannels.Base.{
  ℕ, ◌+◌, ◌-◌, ◌≡◌, ◌≤◌, refl, sym, ap, ◌∙◌, true, false, List, [], ◌∷◌, ◌++◌, length,
  length-append, take-append, ◌==◌, nat_eq, string_eq, arith, Bool-cases, inl, inr, false≢true,
  subst,
}
use wasi_webrtc_datachannels.Signaling.Mailbox.{Room, Mailbox, pending, mailbox, peek}
use wasi_webrtc_datachannels.Signaling.Rooms.{Rooms, enter, fetch_now}
use wasi_webrtc_datachannels.Signaling.Rooms.View.{lookup-enter}
use wasi_webrtc_datachannels.Signaling.LongPoll.{Notify, Poll, since}
use wasi_webrtc_datachannels.Signaling.LongPoll.Watching.{
  In, Watched, Moves, same_entry, enter-Moves,
}

module _ (notify : Notify) where
  wakes-In : (n : ℕ) (fresh calls : List ℕ) → In n fresh → notify.woken n (fresh ++ calls) ≡ true
  wakes-In n [] calls h = absurd h
  wakes-In n (j ∷ fresh) calls (inl e) =
      subst (λ k. notify.woken n (k ∷ fresh ++ calls) ≡ true) e (notify.wakes n (fresh ++ calls))
  wakes-In n (j ∷ fresh) calls (inr h) = elim (Bool-cases (n == j)) [
    | inl e ↦
        subst (λ k. notify.woken n (k ∷ fresh ++ calls) ≡ true) ((nat_eq.eq_iff n j).0 e)
          (notify.wakes n (fresh ++ calls))
    | inr e ↦
        notify.others n j (fresh ++ calls) (λ x. false≢true (sym e ∙ (nat_eq.eq_iff n j).1 x))
        ∙ wakes-In n fresh calls h
  ]

  -- What has not woken a future had not woken it before.
  quiet_before :
      (n : ℕ) (fresh calls : List ℕ)
      → notify.woken n (fresh ++ calls) ≡ false
      → notify.woken n calls ≡ false
  quiet_before n [] calls h = h
  quiet_before n (j ∷ fresh) calls h = elim (Bool-cases (n == j)) [
    | inl e ↦
        absurd (false≢true (sym h ∙ wakes-In n (j ∷ fresh) calls (inl ((nat_eq.eq_iff n j).0 e))))
    | inr e ↦ quiet_before n fresh calls (
        sym (notify.others n j (fresh ++ calls) (λ x. false≢true (sym e ∙ (nat_eq.eq_iff n j).1 x)))
        ∙ h)
  ]

since-append :
    (mark : ℕ) (fresh calls : List ℕ)
    → mark ≤ length calls
    → since mark (fresh ++ calls) ≡ fresh ++ since mark calls
since-append mark fresh calls h =
    let n = length calls - mark in
    let e : length (fresh ++ calls) - mark ≡ length fresh + n =
      omega (arith, length-append fresh calls) in
    rw e (take-append fresh calls n)

-- `P` holds of the fetched mailbox, which has the notifier `n`.
abbrev pub IsPending : ℕ → Mailbox → Type 0
IsPending seq m = peek m seq ≡ pending

abbrev pub Any : Mailbox → Type 0
Any m = Unit {0}

module _ (notify : Notify) (p : Poll) where
  -- The mailbox that the fetch peeked has not been taken out.
  abbrev pub Held : ℕ → Rooms → Type 0
  Held n s = Watched p.room p.role n Any s

  -- Until the notifier `n` is called, the fetched mailbox stays as it is.
  pub record Guarded (n mark : ℕ) (P : Mailbox → Type 0) (s : Rooms) : Type 0 where
    pub within : mark ≤ length s.calls
    pub quiet : notify.woken n (since mark s.calls) ≡ false → Watched p.room p.role n P s

  pub Guarded-Moves :
      (n mark : ℕ) (P : Mailbox → Type 0) (s t : Rooms)
      → Moves p.room p.role n P s t
      → Guarded n mark P s
      → Guarded n mark P t
  Guarded-Moves n mark P s t m g = record {
    within = rw (m.logged) (rw length-append (omega (arith, g.within)));
    quiet = λ q.
        let q' = rw (since-append mark m.fresh s.calls g.within) at (rw (m.logged) at q) in
        elim (m.kept (g.quiet (quiet_before notify n m.fresh (since mark s.calls) q'))) [
          | inl w ↦ w
          | inr h ↦ absurd (false≢true (sym q' ∙ wakes-In notify n m.fresh (since mark s.calls) h))
        ];
  }

  -- The entry that a fetch peeks is the one in the map.
  pub Held-fetch :
      (s : Rooms) (now : ℕ)
      → let ((f, n), t) = fetch_now s now p.room p.role p.seq in
        Watched p.room p.role n (λ m. peek m p.seq ≡ f) t
  unfolding fetch_now
  Held-fetch s now = record {
    entry = (enter s now p.room).0;
    there = lookup-enter s now p.room;
    known = refl;
    holds = refl;
  }

  pub Held-of : (n : ℕ) (P : Mailbox → Type 0) (s : Rooms) → Watched p.room p.role n P s → Held n s
  Held-of n P s w = record { entry = w.entry; there = w.there; known = w.known; holds = tt }

  -- A second peek of a mailbox that is held is a peek of the same mailbox.
  pub recheck-Guarded :
      (now : ℕ) (s : Rooms) (n mark : ℕ)
      → Guarded n mark Any s
      → let ((f, m), t) = fetch_now s now p.room p.role p.seq in
        f ≡ pending → Guarded n mark (IsPending p.seq) t
  recheck-Guarded now s n mark g e =
      let t = (fetch_now s now p.room p.role p.seq).1 in
      let g' : Guarded n mark Any t = Guarded-Moves n mark Any s t entered g in
      record {
        within = g'.within;
        quiet = λ q.
            let w = g'.quiet q in
            let v = Held-fetch s now in
            let x = same_entry p.room p.role n Any t p.room v.entry w v.there refl in
            record {
              entry = v.entry;
              there = v.there;
              known = ap (λ (r : Room). (mailbox r p.role).notify) x ∙ w.known;
              holds = v.holds ∙ e;
            };
      }
    where
      entered : Moves p.room p.role n Any s (fetch_now s now p.room p.role p.seq).1
      entered = unfold fetch_now in enter-Moves p.room p.role n Any s now p.room
