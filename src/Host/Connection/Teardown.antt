-- ===== src/Host/Connection/Teardown.antt =====
-- How often a connection is torn down in wasmtime-impl/src/peer_connection.rs.
use wasi_webrtc_datachannels.Base.{
  ℕ, ◌+◌, ◌≡◌, refl, ap, ◌∙◌, Bool, true, false, List, [], ◌∷◌, arith, sym, any, Bool-cases, inl,
  inr, false≢true,
}
use wasi_webrtc_datachannels.Host.Connection.{
  ConnectionState, connected, failed, closed, other, Built, building, built, unbuilt, Connection,
  sends, send_built, new_with, finish_from, finish_build, fire, close, on_connection_state, Step,
  builds, closes, changes, step, run,
}

abbrev pub one_if : Bool → ℕ
one_if true = 1
one_if false = 0

abbrev pub made : Built → ℕ
made built = 1
made building = 0
made unbuilt = 0

-- Each connection that was made is retained or was torn down.
abbrev Balanced : Connection → Type 0
Balanced c = one_if c.slot + c.teardowns ≡ made c.built + one_if c.sending

-- While the result is to be sent, the build is still waited for; before the store the slot is empty.
abbrev IsPhased : Connection → Type 0
IsPhased c = c.sending ≡ true → c.built ≡ building

finish_from-Balanced :
    (c : Connection) (b : Built) (success : Bool)
    → c.built ≡ b
    → Balanced c
    → Balanced (finish_from c b success)
unfolding finish_from
finish_from-Balanced c building true e h = ground (arith, ap made e)
finish_from-Balanced c building false e h = ground (arith, ap made e)
finish_from-Balanced c built success e h = h ∙ ap (λ n. n + one_if c.sending) (ap made e)
finish_from-Balanced c unbuilt success e h = h ∙ ap (λ n. n + one_if c.sending) (ap made e)

finish_from-IsPhased :
    (c : Connection) (b : Built) (success : Bool)
    → c.built ≡ b
    → IsPhased c
    → IsPhased (finish_from c b success)
unfolding finish_from
finish_from-IsPhased c building true e h s = ground (arith, e)
finish_from-IsPhased c building false e h s = ground (arith, e)
finish_from-IsPhased c built success e h s = sym e ∙ h s
finish_from-IsPhased c unbuilt success e h s = sym e ∙ h s

send_built-Balanced : (c : Connection) → Balanced c → IsPhased c → Balanced (send_built c)
unfolding send_built
send_built-Balanced c h p = elim (Bool-cases c.sending) [
  | inl e ↦ rw e (omega (arith, h, ap made (p e), ap one_if e))
  | inr e ↦ rw e (h ∙ ap (λ x. made c.built + one_if x) e)
]

send_built-IsPhased : (c : Connection) → IsPhased c → IsPhased (send_built c)
unfolding send_built
send_built-IsPhased c p = elim (Bool-cases c.sending) [
  | inl e ↦ rw e (λ s. absurd (false≢true s))
  | inr e ↦ rw e (λ s. absurd (false≢true s))
]

close-Balanced : (c : Connection) → Balanced c → Balanced (close c)
unfolding close
close-Balanced c h = ground arith

state-Balanced :
    (c : Connection) (s : ConnectionState) → Balanced c → Balanced (on_connection_state c s)
unfolding on_connection_state
state-Balanced c connected h = h
state-Balanced c failed h = h
state-Balanced c closed h = h
state-Balanced c other h = h

state-IsPhased :
    (c : Connection) (s : ConnectionState) → IsPhased c → IsPhased (on_connection_state c s)
unfolding on_connection_state
state-IsPhased c connected h = h
state-IsPhased c failed h = h
state-IsPhased c closed h = h
state-IsPhased c other h = h

abbrev IsSound : Connection → Type 0
IsSound c = Balanced c × IsPhased c

step-IsSound : (c : Connection) (s : Step) → IsSound c → IsSound (step c s)
unfolding step finish_build close
step-IsSound c (builds success) (h, p) =
    (finish_from-Balanced c c.built success refl h, finish_from-IsPhased c c.built success refl p)
step-IsSound c sends (h, p) = (send_built-Balanced c h p, send_built-IsPhased c p)
step-IsSound c closes (h, p) = (close-Balanced c h, p)
step-IsSound c (changes s) (h, p) = (state-Balanced c s h, state-IsPhased c s p)

run-IsSound : (ss : List Step) (c : Connection) → IsSound c → IsSound (run c ss)
unfolding run
run-IsSound [] c h = h
run-IsSound (s ∷ ss) c h = run-IsSound ss _ (step-IsSound c s h)

start-IsSound : (runtime : Bool) → IsSound (new_with runtime)
unfolding new_with
start-IsSound true = (refl, λ s. refl)
start-IsSound false = (refl, λ s. absurd (false≢true s))

-- However often `close` is called and whatever states the connection goes through, also between the
-- two steps of the build task, a connection is torn down at most once: the teardowns, with the
-- connection that is still retained, are as many as were built, a connection whose result the build
-- task has still to send counted among them.
pub run_one_teardown :
    (runtime : Bool) (ss : List Step)
    → let c = run (new_with runtime) ss in
      one_if c.slot + c.teardowns ≡ made c.built + one_if c.sending
run_one_teardown runtime ss = (run-IsSound ss _ (start-IsSound runtime)).0

-- Closed, with a live connection that no teardown has taken.
abbrev pub IsLeft : Connection → Type 0
IsLeft c = (c.fired ≡ true) × (c.slot ≡ true) × (c.teardowns ≡ 0)

abbrev pub is_close : Step → Bool
is_close closes = true
is_close sends = false
is_close (builds success) = false
is_close (changes s) = false

kept :
    (c : Connection)
    → Balanced c
    → c.built ≡ building
    → c.sending ≡ false
    → IsLeft (finish_build (close c) true)
unfolding close finish_build fire finish_from
kept c h e n =
    let zero_left : one_if c.slot + c.teardowns ≡ 0 = omega (arith, h, ap made e, ap one_if n) in
    rw e (rw n (refl, refl, ground (arith, zero_left)))

finish_from-IsLeft :
    (c : Connection) (b : Built) (success : Bool) → IsLeft c → IsLeft (finish_from c b success)
unfolding finish_from
finish_from-IsLeft c building true h = ground arith
finish_from-IsLeft c building false h = ground arith
finish_from-IsLeft c built success h = h
finish_from-IsLeft c unbuilt success h = h

send_built-IsLeft : (c : Connection) → IsLeft c → IsLeft (send_built c)
unfolding send_built
send_built-IsLeft c h = ground arith

state-IsLeft : (c : Connection) (s : ConnectionState) → IsLeft c → IsLeft (on_connection_state c s)
unfolding on_connection_state fire
state-IsLeft c connected h = h
state-IsLeft c failed (f, s, t) = (refl, s, t)
state-IsLeft c closed (f, s, t) = (refl, s, t)
state-IsLeft c other h = h

run-IsLeft :
    (ss : List Step) (c : Connection) → any is_close ss ≡ false → IsLeft c → IsLeft (run c ss)
unfolding run step finish_build
run-IsLeft [] c quiet h = h
run-IsLeft (builds success ∷ ss) c quiet h =
    run-IsLeft ss _ quiet (finish_from-IsLeft c c.built success h)
run-IsLeft (sends ∷ ss) c quiet h = run-IsLeft ss _ quiet (send_built-IsLeft c h)
run-IsLeft (closes ∷ ss) c quiet h = absurd (false≢true (sym quiet))
run-IsLeft (changes s ∷ ss) c quiet h = run-IsLeft ss _ quiet (state-IsLeft c s h)

taken : (c : Connection) → IsLeft c → ((close c).slot ≡ false) × ((close c).teardowns ≡ 1)
unfolding close fire
taken c (f, s, t) = (refl, ground arith)

-- A `close` that comes before the build task has stored a connection fires the close signal and tears
-- nothing down, and the build task retains the connection that it then finishes. It stays retained,
-- and not torn down, whatever steps follow of the build task and of the connection's state, until the
-- next call of `close`, which tears it down once.
pub close_while_building :
    (runtime : Bool) (ss later : List Step)
    → (run (new_with runtime) ss).built ≡ building
    → (run (new_with runtime) ss).sending ≡ false
    → any is_close later ≡ false
    → let c = run (finish_build (close (run (new_with runtime) ss)) true) later in
      IsLeft c × ((close c).slot ≡ false) × ((close c).teardowns ≡ 1)
close_while_building runtime ss later e n quiet =
    let left = run-IsLeft later _ quiet (kept _ (run-IsSound ss _ (start-IsSound runtime)).0 e n) in
    let gone = taken _ left in (left, gone.0, gone.1)
