-- ===== src/Host/Tests.antt =====
-- The theorems on wasmtime-impl/src at concrete runs.
use wasi_webrtc_datachannels.Base.{
  ℕ, All, inl, nat_eq, map, ◌||◌, Bool, ◌+◌, ◌≤◌, ◌<◌, ◌≡◌, refl, true, false, Option, none, some,
  List, [], ◌∷◌, ◌++◌, length, arith, String, leb, if◌then◌else◌, ◌%◌, ◌^◌,
}
use wasi_webrtc_datachannels.Host.Inbound.{
  InboundMessage, DataChannelEvent, on_open, on_message, on_close, spawn_channel_pump, on_event,
  pump_from, pump, take_next, release, Move, pumps, takes, releases, step, run,
}
use wasi_webrtc_datachannels.Host.Inbound.Budget.{total, held, in_hand, run-buffered}
use wasi_webrtc_datachannels.Host.Inbound.Order.{Prefix, run-delivered, run_drained}
use wasi_webrtc_datachannels.Host.Inbound.Overflow.{Frozen, run-Frozen}
use wasi_webrtc_datachannels.Guest.Provider.{Error}
use wasi_webrtc_datachannels.Signaling.LongPoll.CallLog.{call_log, called}
use wasi_webrtc_datachannels.Host.Pending.{
  Act, begins, counts_down, notifies, polls, Waiter, entered, default, begin, end_count, end_notify,
  settled, act, run as run_pending,
}
use wasi_webrtc_datachannels.Host.Pending.Settled.{settled_wakes}
use wasi_webrtc_datachannels.Host.Connection.{
  built, ConnectionState, new_with, finish_build, close, builds, closes, changes, sends,
  run as run_connection,
}
use wasi_webrtc_datachannels.Host.Connection.Teardown.{
  one_if, made, IsLeft, run_one_teardown, close_while_building,
}
use wasi_webrtc_datachannels.Host.Channel.{
  Transport, PendingSend, HostChannel, deferred, ok, send_via_stream, send_pending,
  send_channel_message, judge, to_error,
}
use wasi_webrtc_datachannels.Host.Channel.Sent.{StopsAt, send_via_stream-StopsAt}
use wasi_webrtc_datachannels.Host.Streams.{StreamMessage, forward, produced}
use wasi_webrtc_datachannels.Host.Streams.Forwarding.{whole, available, send_via_stream-forward}
use wasi_webrtc_datachannels.Host.Streams.Producing.{wired, idle, produce_all, produce_all-queue}
use wasi_webrtc_datachannels.Guest.Connection.{DcConfig, done, failed}
use wasi_webrtc_datachannels.Host.Descriptions.{
  RtcConnection, create_data_channel, run_task, create_offer, end_pending,
}
use wasi_webrtc_datachannels.Host.Descriptions.Covering.{
  Step, creates, runs, builds as builds_to, step as step_negotiation, run as run_negotiation,
  new_negotiation, HasEnded, create_offer-HasEnded,
}

abbrev m3 : InboundMessage
m3 = record { is_string = false; payload = 1 ∷ 2 ∷ 3 ∷ [] }

abbrev m2 : InboundMessage
m2 = record { is_string = true; payload = 65 ∷ 66 ∷ [] }

abbrev script : List DataChannelEvent
script = on_open ∷ on_message m3 ∷ on_message m2 ∷ on_close ∷ []

-- The pump opens, receives and queues `m3`, which the reader takes; the pump goes on with `m2` to
-- the comparison before the reader releases.
abbrev overlap : List Move
overlap =
    pumps ∷ pumps ∷ pumps ∷ pumps ∷ pumps ∷ pumps ∷ takes ∷ pumps ∷ pumps ∷ pumps ∷ releases ∷ []

run-buffered_example :
    let c = run (spawn_channel_pump 8 script) overlap in
    (c.budget.buffered ≡ total c.queue + held c.taken + in_hand c.phase) × (c.budget.buffered ≤ 8)
run-buffered_example = run-buffered 8 (omega arith) script overlap

run-delivered_example :
    let c = run (spawn_channel_pump 8 script) overlap in Prefix c.delivered c.seen
run-delivered_example = run-delivered 8 script overlap

-- The same to the end.
abbrev to_the_end : List Move
to_the_end = overlap ++ pumps ∷ pumps ∷ takes ∷ releases ∷ pumps ∷ []

run_drained_example : let c = run (spawn_channel_pump 8 script) to_the_end in c.delivered ≡ c.seen
unfolding run step pump pump_from on_event take_next release spawn_channel_pump
run_drained_example = run_drained 8 script to_the_end refl refl refl refl

-- With a bound of four bytes `m2` is refused while the reader still holds `m3`.
run-Frozen_example :
    let c = run (spawn_channel_pump 4 script) (overlap ++ pumps ∷ []) in
    Frozen c (run c (pumps ∷ pumps ∷ takes ∷ []))
unfolding run step pump pump_from on_event take_next release spawn_channel_pump
run-Frozen_example = run-Frozen 4 script (overlap ++ pumps ∷ []) (pumps ∷ pumps ∷ takes ∷ []) refl

run_one_teardown_example :
    let c =
      run_connection
        (new_with true)
        (builds true ∷ closes ∷ sends ∷ changes ConnectionState.closed ∷ closes ∷ []) in
    one_if c.slot + c.teardowns ≡ made c.built + one_if c.sending
run_one_teardown_example =
    run_one_teardown true
      (builds true ∷ closes ∷ sends ∷ changes ConnectionState.closed ∷ closes ∷ [])

close_while_building_example :
    let c =
      run_connection
        (finish_build (close (run_connection (new_with true) [])) true)
        (sends ∷ changes ConnectionState.connected ∷ []) in
    IsLeft c × ((close c).slot ≡ false) × ((close c).teardowns ≡ 1)
unfolding run_connection new_with
close_while_building_example =
    close_while_building true [] (sends ∷ changes ConnectionState.connected ∷ []) refl refl refl

-- A wire that is the list of what was sent on it, and fails when it is full.
wire_send : List (List ℕ) → List ℕ → Option String × List (List ℕ)
wire_send w payload = if leb 2 (length w) then (some "full", w) else (none, w ++ payload ∷ [])

abbrev wire : Transport (List (List ℕ))
wire = record { send_text = wire_send; send = wire_send; is_open = λ w. true }

abbrev pending : List ℕ → PendingSend
pending payload = record {
  is_string = false;
  length = length payload;
  payload = payload;
  closed = false;
}

abbrev three : List PendingSend
three = pending (1 ∷ []) ∷ pending (2 ∷ 3 ∷ []) ∷ pending [] ∷ []

send_via_stream-StopsAt_example : (2 < 3) × StopsAt wire [] 0 three (Error.other "full") 2
unfolding send_via_stream send_pending send_channel_message judge to_error wire_send
send_via_stream-StopsAt_example =
    send_via_stream-StopsAt wire three [] (Error.other "full") 2 (omega arith) refl

-- A channel with a message, whose stream is claimed while a `receive` waits.
abbrev open_channel : HostChannel
open_channel = record deferred { wired = some (ok tt); queue = m2 ∷ [] }

-- A waiter that parks while a task is under way.
abbrev task_under_way : List Act
task_under_way = begins ∷ polls ∷ polls ∷ counts_down ∷ notifies ∷ []

settled_wakes_example :
    let (p, w) = run_pending call_log (default, entered) task_under_way in
    settled call_log p (settled call_log p (settled call_log p w)) ≡ Waiter.returned
unfolding run_pending act begin end_count end_notify settled default called
settled_wakes_example = settled_wakes call_log task_under_way 0 (omega arith) refl refl refl

-- Two messages in a first poll, the bytes of the first in two chunks, and one in a second.
abbrev message : List (List ℕ) → Bool → StreamMessage
message chunks finishes = record {
  is_string = false;
  length = 2;
  chunks = chunks;
  finishes = finishes;
  closed = false;
}

abbrev batches : List (List StreamMessage × Bool)
batches =
    (message ((1 ∷ []) ∷ [] ∷ (2 ∷ []) ∷ []) true ∷ message ((3 ∷ 4 ∷ []) ∷ []) false ∷ [], false)
    ∷ ([], false)
    ∷ (message [] true ∷ [], true)
    ∷ []

send_via_stream-forward_example :
    send_via_stream wire [] 0 (forward batches [])
    ≡ send_via_stream wire [] 0 (map whole (available batches))
send_via_stream-forward_example = send_via_stream-forward wire [] 0 batches

produce_all-queue_example :
    produce_all
      (false ∷ true ∷ false ∷ true ∷ [])
      (wired true false false true false (m3 ∷ m2 ∷ []))
    ≡ map
        (λ m. produced (record {
          is_string = m.is_string;
          length = length m.payload % 2 ^ 32;
          payload = m.payload;
        }))
        (m3 ∷ m2 ∷ [])
      ++ map (idle (true || false)) (false ∷ true ∷ [])
produce_all-queue_example =
    produce_all-queue true false false true false (false ∷ true ∷ []) (false ∷ true ∷ [])
      (m3 ∷ m2 ∷ []) refl

-- A crate whose wire is the number of its channels, and whose offer is text.
abbrev rtc : RtcConnection ℕ
rtc = record {
  create_data_channel = λ w config. (done w, w + 1);
  create_offer = λ w. (done "v=0", w);
  create_answer = λ w. (failed "no offer", w);
  parse = λ kind sdp. none;
  set_local_description = λ w kind sdp. (done tt, w);
  set_remote_description = λ w kind sdp. (done tt, w);
  add_ice_candidate = λ w c. (done tt, w);
}

abbrev config : DcConfig
config = record { label = "a"; ordered = true; max_retransmits = none }

abbrev negotiated : List (Step ℕ)
negotiated =
    creates config ∷ creates config ∷ builds_to built ∷ runs 1 ∷ runs 0 ∷ runs 0 ∷ runs 1 ∷ []

create_offer-HasEnded_example :
    let n = run_negotiation rtc (new_negotiation rtc "" 0) negotiated in
    All HasEnded n.tasks × (length n.tasks ≡ 2)
unfolding run_negotiation step_negotiation create_offer create_data_channel run_task end_pending
create_offer-HasEnded_example =
    create_offer-HasEnded rtc "" 0 negotiated "v=0" (omega arith) (inl refl)
