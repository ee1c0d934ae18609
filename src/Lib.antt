-- ===== src/Lib.antt =====
-- mdds: a verification library beside the C++ sources of mdds, a small DDS-like publish/subscribe
-- layer over peer-to-peer transports.
--
-- How the program works. A writer numbers its samples 1, 2, 3, ... and sends each as a DATA frame.
-- A reader keeps, for each writer, a baseline up to which every number is accounted for and a
-- window of 64 bits of numbers received past it. Heartbeats tell the reader what was published; it
-- answers with an ACKNACK that names its base and its window; the writer sends the missing samples
-- again, or a GAP for those that the reader will never get.
--
-- What models what. Paths are from the repository's root.
--   Base        names that all modules share, lists and Boolean tests on numbers, bits of words.
--   Wire        the big-endian words of src/frame.cpp, which src/qos.cpp repeats.
--   Guid        include/mdds/guid.hpp: identifiers.
--   Qos         src/qos.cpp and include/mdds/qos.hpp: profiles, their wire form, the matching rules.
--   Frame       src/frame.cpp and include/mdds/frame.hpp: header, trailer and the DATA frame;
--               Frame.Frag is DATA_FRAG; Frame.Control is ACKNACK, HEARTBEAT and GAP.
--   Tracker     the receive state of one writer in ReaderImpl of src/participant.cpp: `track` is the
--               first part of enqueue, `gap` the last part of apply_gap.
--   Lifespan    lifespan_expired, and the trim of a queue to its cap, in src/participant.cpp.
--   Reader      ReaderImpl of src/participant.cpp: enqueue, take, available, messages_lost,
--               nack_state and apply_gap on one reader record.
--   Writer      WriterImpl of src/participant.cpp: cache_sample, and as `claim` the part of
--               write_sample that takes a number; Writer.Acknack is the loop of handle_acknack.
--   Fragment    src/fragment.cpp and include/mdds/fragment.hpp: Fragmenter, and Reassembler with its
--               interval lists.
--   Discovery   src/discovery.cpp and include/mdds/discovery.hpp: the ANNOUNCE frame.
--   SendLane    src/send_lane.hpp: push, stop, and the rounds of the worker of one lane;
--               SendLane.Stopping is the worker behind stop, and SendLane.Interleaving several lanes
--               that share a budget, with a push in its two halves.
--   OrderedMap  what the program uses of std::map and std::set: entries in the order of their keys.
--   Participant ParticipantImpl of src/participant.cpp: its state, its outputs, send_frame and
--               send_sample_to. Participant.Endpoints is the endpoint tables, snapshot_locked,
--               send_targets_locked, recompute_matches, the nodes, and what creates and destroys
--               endpoints; Participant.Deliver is deliver_sample, handle_gap, handle_heartbeat and
--               replay_local_history; Participant.Send is write_sample, replay_history_to_peer, the
--               announcements, the heartbeats and handle_peer_up; Participant.Receive is handle_bytes,
--               handle_announce, handle_acknack, handle_peer_down and the queries.
--               Participant.Relay is ListenerRelay and start_transport.
--   PeerId      make_peer_id and its two readers in src/participant.cpp.
--   Listener    TransportListener of include/mdds/transport.hpp, and when its calls are a session.
--   Udp         UdpLoopbackTransport of src/transport_udp.cpp: its peer table and what it tells its
--               listener. Udp.Lifecycle is its start and stop and enumerate_interfaces.
--   Dsoftbus    DsoftbusTransport of src/transport_dsoftbus.cpp: the callbacks of the client library,
--               connect_online_peers, bind_peer, send, deliver, start and stop on the table of the
--               peers, with their lanes. Dsoftbus.Traffic is send, max_payload, deliver, the rounds of the
--               lanes and stop; Dsoftbus.Inputs is a sequence of all of these.
--               Participant.OverDsoftbus puts a participant on top.
--   Tests       runs on concrete inputs.
--
-- How. A buffer is the list of its bytes, and a null buffer is the empty list, or `none` where the
-- source tests for null. A decoder's `none` is the source's `false`. A call that holds a mutex for
-- its whole length is one step, from a state to a state and a result. Each clock reading of a call
-- is an argument of its own, so nothing is assumed of the clock. What a participant hands to a
-- transport or calls back is a list of outputs, in order. A transport is two functions, what its
-- `send` and `max_payload` answer in the course of one call. What the DSoftBus library and the
-- sockets answer are arguments, and what is asked of the library is a list of effects. Endpoints
-- are kept by the address that their allocation gave, as in the source. Numbers are unbounded; a uint64_t sum keeps its
-- wrap (`u64`), and ranges are hypotheses (`IsU64`). An enum is its number where the source casts
-- any byte to it.
--
-- Loops. The loop that slides the baseline runs on 64 rounds of fuel, one for each bit of the
-- window. The loop over a trailer runs on one round more than the trailer has bytes, and each
-- round takes two. The loop that cuts a payload into fragments runs on one round for each byte.
-- The worker of a lane that stops runs on one round more than its queue has frames. For each of
-- them it is proved that it ends by its own test. The other loops recurse on their
-- list, or count up to 64, or over the ports of a range.
--
-- What is not modelled. The sockets and the threads of the transports with the presence by which
-- stop wakes its own receive thread, the options and the names of the DSoftBus sockets and the
-- token of the process, which only fill arguments of library calls; of the participant the
-- constructor, init and the destructor, the registration of the callbacks, and the wait of the
-- announce thread. A callback of the DSoftBus library and the call of the listener behind it are
-- one step, so two callbacks do not overtake each other. The test of deliver and its SendBytes are
-- one step too: a shutdown of the channel joins the lane's worker behind it. Two calls on one
-- participant run one after the other: a call that takes the mutex twice is one step too. The
-- random prefix of a participant is part of its state.
pub mod Base
pub mod Wire
pub mod Guid
pub mod Qos
pub mod Frame
pub mod Tracker
pub mod Lifespan
pub mod Reader
pub mod Writer
pub mod Fragment
pub mod Discovery
pub mod SendLane
pub mod PeerId
pub mod OrderedMap
pub mod Participant
pub mod Listener
pub mod Udp
pub mod Dsoftbus
pub mod Tests
