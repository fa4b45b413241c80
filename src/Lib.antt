-- ===== src/Lib.antt =====
-- WebRTC data channels for WASI: the signaling server of the conformance suite, the guest-side
-- implementation over a sans-I/O core, the channels and connections of the Wasmtime host, the contract
-- that both implement, the conformance guest that tests them, the adapters that run it, and the policy
-- of the conformance runner.
--
-- The signaling server (conformance/signaling/server/src) lets two peers exchange blobs before they
-- are connected. A room holds two mailboxes, one per role, which only grow until they are marked done.
--   Signaling/Mailbox   the data of state.rs: Role, Fetch, Mailbox, Room, Publish, Limits
--   Signaling/Rooms     Rooms of state.rs: publish, mark_done, fetch_now, delete, evict_expired.
--                       Each runs under the write lock of the map and is one function on the store.
--                       The clock is an argument, a notifier is a number, and the calls of
--                       notify_waiters are logged in the store.
--   Signaling/LongPoll  Rooms::fetch, one step for each stretch between two awaits. Steps of the fetch
--                       and calls of the store interleave in any order. Notify of tokio is a record of
--                       an operation and the laws that its documentation states.
--   Signaling/Http      the handlers of lib.rs, from path, query and body to status, headers and body.
--
-- The guest (wasip3-impl/src) keeps one state per connection, which its pump and the exported
-- resources share.
--   Guest/State         Shared, Channel and apply_event of runtime.rs, the events of peer.rs
--   Guest/Provider      the exported methods of provider.rs; a method that waits is one attempt at a
--                       time, which returns or waits for the next change of the state
--   Guest/Provider/Streaming  send_via_stream and drain_stream of provider.rs
--   Guest/Connection    the options and the exported connection: what it keeps beside Shared, and its
--                       calls of the core, which are a parameter
--   Guest/Pump          Runtime::pump in the parts between its awaits; Guest/Pump/Steps interleaves
--                       them with the exported methods
-- The rtc core is a record of its calls, Guest.Pump.Core, over any type of peers. The guest's usize has
-- 32 bits, and its sums and differences wrap.
--
-- The Wasmtime host (wasmtime-impl/src) feeds the messages of a channel from a pump task to a reader on
-- another thread.
--   Host/Inbound        InboundBudget, InboundQueue and spawn_channel_pump of data_channel.rs. Each
--                       atomic access and each access of the queue is a step, so that every
--                       interleaving of pump and reader is a run. usize has 64 bits and wraps.
--   Host/Connection     the build task, close, wait_connected and the state handler of
--                       peer_connection.rs as steps that come in any order
--   Host/Pending        PendingOps of peer_connection.rs, its tasks and a waiter, each atomic access a
--                       step; the notifier is that of Signaling/LongPoll
--   Host/Channel        send, receive and their stream forms of host.rs over the claim of data_channel.rs
--                       and the errors of error.rs; the transport of the webrtc crate is a record of its
--                       calls
--   Host/Descriptions   create_data_channel with its tasks, offers, answers, descriptions and candidates
--                       of peer_connection.rs, over a record of the calls of the webrtc crate
--   Host/Streams        the stream consumers and producers of host.rs, poll by poll
--
-- The conformance runner (conformance/runner/src) holds adapter results against declared policy.
--   Runner/Manifest     the entries of manifest.rs, which of them applies, and their validation
--   Runner/Plan         results.rs, registry.rs and plan.rs: reports grouped by environment, the cell of
--                       each test, has_failures and failures
--
-- The contract of the two implementations (wit/webrtc.wit)
--   Contract            receive and receive-via-stream as a machine on what waits, the claim and the
--                       ending, and what it is to refine it
--   Contract/OnGuest    the exported channel of provider.rs, through a view of Shared
--   Contract/OnHost     the channel of host.rs, through a view of its queue
--   Contract/Once       the probe receive_via_stream_once of the conformance guest, over either
--
-- The conformance guest (conformance/guest/src/lib.rs) is one program for every implementation, so the
-- interface under test is a parameter: a record of its methods for connections, and for channels the
-- results that the calls get, each kind in order.
--   Suite/Payload       make_payload, payload_index, verify_payload; bytes are little endian
--   Suite/Calls         a program over the calls of a channel, and its error texts. A text with
--                       numbers in it is kept as its parts.
--   Suite/Exchange      exchange with send_sequence, recv_sequence, verify_all and verify_ordered
--   Suite/Barrier       barrier, and run_two_peer from the connected channel on
--   Suite/Handshake     handshake_offerer and handshake_answerer over a mailbox; the JSON text of a
--                       signal is a parameter
--   Suite/Probes        the tests within one process: inproc_connect, invalid_sdp, error_timed_out;
--                       in Errors the overflow, the close and the round trip
--
-- The adapters (conformance/adapters) run the conformance guest and report to the runner.
--   Adapters/Outcome    lib.rs of common: outcomes, their JSON fields, plans, run_test, run_corpus
--   Adapters/Verdict    from an adapter's attempts to the exit code of the runner
--   Adapters/PeerCommand  peer_command.rs: the arguments of a peer process
--   Adapters/Lab        lab.rs and bin/netns.rs: the topology and the scenarios; in Provisioning the
--                       commands of each operation in order, from what the pid file holds
--   Adapters/Interop    bin/interop.rs of wasmtime: the pairs of implementations and their reports
--   Adapters/Shadow     bin/shadow.rs of common: the hosts of each test and the simulator's text
--   Adapters/Session    the mailbox clients of the adapters wasmtime and wasip3; in Served and Delivery
--                       against the server of Signaling
--   Adapters/Driver     parse_args of the composed guest; in RoundTrip against the commands
--
-- Loops are recursion on the list that they run over. Guest.Provider.Incoming.incoming has as fuel the
-- number of turns, and the length of the list of channels is enough. A loop of the conformance guest
-- or of a mailbox client runs over the results that its calls will get, and gives none where they run
-- out before it ends. Adapters.Session.receive_all has as fuel the calls of recv, and one more than
-- there are blobs is enough.
--
-- Not modelled: sockets, timers and tasks, HTTP framing and JSON text, what the rtc cores make of
-- descriptions and candidates, the resource table and the linking of the Wasmtime host,
-- the JavaScript host, the probes of the stream methods, the runner's files and processes, and what the
-- commands of the network lab do.
mod Base
pub mod Signaling
pub mod Guest
pub mod Host
pub mod Runner
pub mod Contract
pub mod Suite
pub mod Adapters
