-- ===== src/Host/Channel/Sent.antt =====
-- What the `sent` count of `send_via_stream` in wasmtime-impl/src/host.rs says.
use wasi_webrtc_datachannels.Base.{
  ℕ, suc, ◌+◌, ◌%◌, ◌^◌, ◌<◌, ◌≡◌, refl, sym, subst, ap, ◌∙◌, some, List, [], ◌∷◌, length, take,
  get_elem?, arith,
}
use wasi_webrtc_datachannels.Guest.Provider.{Error}
use wasi_webrtc_datachannels.Host.Channel.{
  WebrtcError, Transport, all_sent, stopped, PendingSend, WebrtcResult, ok, err, send_pending,
  send_via_stream, counted, to_error,
}

module _ {Wire : Type 0} (t : Transport Wire) where
  -- The messages before the place `j` were all sent, and the one there failed with the error.
  abbrev pub StopsAt : Wire → ℕ → List PendingSend → Error → ℕ → Type 0
  StopsAt w k ps e j =
      ((send_via_stream t w k (take j ps)).0 ≡ all_sent)
      × (p : PendingSend) × (get_elem? ps j ≡ some p)
      × (x : WebrtcError) × ((send_pending t (send_via_stream t w k (take j ps)).1 p).0 ≡ err x)
      × (to_error x ≡ e)

  abbrev Stops : Wire → ℕ → List PendingSend → Error → ℕ → Type 0
  Stops w k ps e n = (j : ℕ) × (n ≡ k + j) × (j < length ps) × StopsAt w k ps e j

  Stops-here :
      (w : Wire) (k n : ℕ) (p : PendingSend) (ps : List PendingSend) (e : Error) (x : WebrtcError)
      (w' : Wire)
      → send_pending t w p ≡ (err x, w')
      → (send_via_stream t w k (p ∷ ps)).0 ≡ stopped e n
      → Stops w k (p ∷ ps) e n
  unfolding send_via_stream counted
  Stops-here w k n p ps e x w' r =
      rw (r, send_via_stream)
        (λ h.
          let conv : to_error x ≡ e = cc in
          let same : k ≡ n = cc in
          (0, omega (arith, same), omega arith, (refl, p, refl, x, ap (λ z. z.0) r, conv)))

  next_turn :
      (w : Wire) (k : ℕ) (p : PendingSend) (ps : List PendingSend) (w' : Wire)
      → send_pending t w p ≡ (ok tt, w')
      → suc k < 2 ^ 64
      → send_via_stream t w k (p ∷ ps) ≡ send_via_stream t w' (suc k) ps
  unfolding send_via_stream counted
  next_turn w k p ps w' r word =
      let exact : (k + 1) % 2 ^ 64 ≡ suc k = omega (arith, word) in
      rw (r, send_via_stream) (ap (λ i. send_via_stream t w' i ps) exact)

  Stops-later :
      (w : Wire) (k n : ℕ) (p : PendingSend) (ps : List PendingSend) (e : Error) (w' : Wire)
      → send_pending t w p ≡ (ok tt, w')
      → suc k < 2 ^ 64
      → Stops w' (suc k) ps e n
      → Stops w k (p ∷ ps) e n
  Stops-later w k n p ps e w' r word (j, en, lt, (all, q, at, x, fails, conv)) =
      let turn = next_turn w k p (take j ps) w' r word in
      (
        suc j,
        omega (arith, en),
        omega (arith, lt),
        (ap (λ z. z.0) turn ∙ all, q, at, x, ap (λ z. (send_pending t z.1 q).0) turn ∙ fails, conv),
      )

  stops :
      (ps : List PendingSend) (w : Wire) (k n : ℕ) (e : Error)
      → k + length ps < 2 ^ 64
      → (send_via_stream t w k ps).0 ≡ stopped e n
      → Stops w k ps e n
  unfolding send_via_stream
  stops [] w k n e word h = cc
  stops (p ∷ ps) w k n e word h =
      by_result (send_pending t w p) refl
        (λ w' at. stops ps w' (suc k) n e (omega (arith, word)) at)
    where
      by_result :
          (r : WebrtcResult (Unit {0}) × Wire)
          → send_pending t w p ≡ r
          → ((w' : Wire)
              → (send_via_stream t w' (suc k) ps).0 ≡ stopped e n
              → Stops w' (suc k) ps e n)
          → Stops w k (p ∷ ps) e n
      by_result (err x, w') r later = Stops-here w k n p ps e x w' r h
      by_result (ok u, w') r later =
          let word' : suc k < 2 ^ 64 = omega (arith, word) in
          Stops-later w k n p ps e w' r word'
            (later w' (ap (λ z. z.0) (sym (next_turn w k p ps w' r word')) ∙ h))

  -- Where sending a stream stops with an error and a count, the count is that of the messages handed
  -- to the transport: exactly those before that place were sent, in order, and the message at that
  -- place is the one that failed, with that error. The stream has less messages than the count's word.
  pub send_via_stream-StopsAt :
      (ps : List PendingSend) (w : Wire) (e : Error) (n : ℕ)
      → length ps < 2 ^ 64
      → (send_via_stream t w 0 ps).0 ≡ stopped e n
      → (n < length ps) × StopsAt w 0 ps e n
  send_via_stream-StopsAt ps w e n word h =
      let (j, en, lt, at) = stops ps w 0 n e (omega (arith, word)) h in
      let same : j ≡ n = omega (arith, en) in
      (omega (arith, same, lt), subst (StopsAt w 0 ps e) same at)
