-- ===== src/Host/Connection.antt =====
-- The life of a connection in wasmtime-impl/src/peer_connection.rs: the build task, the state
-- handler, `close`, `wait_connected` and the close signal of data_channel.rs. The built connection is
-- known by the fact that it is there; `teardowns` counts the connections handed to
-- `close_peer_connections`, and `sending` tells that the build task is between its store into the slot
-- and its send.
pub mod Teardown
use wasi_webrtc_datachannels.Base.{
  ℕ, suc, ◌+◌, ◌-◌, ◌%◌, ◌^◌, Bool, true, false, ◌||◌, ◌&&◌, not, Option, none, some, List, [], ◌∷◌,
  leb, ltb, ◌==◌, nat_eq, if◌then◌else◌,
}

pub data ConnectionState : Type 0 where
  connected : ConnectionState
  failed : ConnectionState
  closed : ConnectionState
  other : ConnectionState

-- What `built` resolves to.
pub data Built : Type 0 where
  building : Built
  built : Built
  unbuilt : Built

pub record Connection : Type 0 where
  pub built : Built
  pub slot : Bool
  pub sending : Bool
  pub connected : Bool
  pub failed : Bool
  pub fired : Bool
  pub teardowns : ℕ

-- Without a runtime there is no build task.
unfoldable pub new_with : Bool → Connection
new_with runtime = record {
  built = if runtime then building else unbuilt;
  slot = false;
  sending = false;
  connected = false;
  failed = false;
  fired = false;
  teardowns = 0;
}

unfoldable pub finish_from : Connection → Built → Bool → Connection
finish_from c building true = if c.sending then c else record c { slot = true; sending = true }
finish_from c building false = if c.sending then c else record c { built = unbuilt }
finish_from c built success = record c { built = built }
finish_from c unbuilt success = record c { built = unbuilt }

-- The build task gets its outcome, once: it stores a connection, which it is then to send on
-- `built_tx`, or sends the error.
unfoldable pub finish_build : Connection → Bool → Connection
unfolding finish_from
finish_build c success = finish_from c c.built success

unfoldable pub send_built : Connection → Connection
send_built c = if c.sending then record c { built = built; sending = false } else c

unfoldable pub fire : Connection → Connection
fire c = record c { fired = true }

unfoldable pub close : Connection → Connection
unfolding fire
close c =
    let d = fire c in
    record d { slot = false; teardowns = if d.slot then suc d.teardowns else d.teardowns }

unfoldable pub on_connection_state : Connection → ConnectionState → Connection
unfolding fire
on_connection_state c ConnectionState.connected = record c { connected = true }
on_connection_state c ConnectionState.failed = fire (record c { failed = true })
on_connection_state c ConnectionState.closed = fire (record c { failed = true })
on_connection_state c other = c

pub data Waited : Type 0 where
  ok : Waited
  closed : Waited
  timed_out : Waited
  build_error : Waited
  waiting : Waited

-- One pass of the loop of `wait_connected`; `expired` tells whether its deadline has come.
unfoldable pub wait_connected : Connection → Bool → Waited
wait_connected c expired = elim c.built [
  | building ↦ waiting
  | unbuilt ↦ build_error
  | built ↦
      if c.connected
      then ok
      else if c.failed
      then Waited.closed
      else if expired
      then timed_out
      else waiting
]

pub data Step : Type 0 where
  builds : Bool → Step
  sends : Step
  closes : Step
  changes : ConnectionState → Step

unfoldable pub step : Connection → Step → Connection
step c (builds success) = finish_build c success
step c sends = send_built c
step c closes = close c
step c (changes s) = on_connection_state c s

unfoldable pub run : Connection → List Step → Connection
run c [] = c
run c (s ∷ ss) = run (step c s) ss
