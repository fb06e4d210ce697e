-- ===== src/Lib.antt =====
-- OpenWeaver's stream transport (stream/include/marlin/stream): reliable streams, multiplexed over a
-- transport of datagrams, with a handshake, acknowledgements, congestion control and retransmission;
-- the framing of messages on its streams (lpf/include/marlin/lpf); and the buffers of bytes that all
-- parts pass on, with the fibers that cut them into frames (core); and the event loop of the simulator.
--
-- The parts and their files:
--   Base, Base/Tests, Base/Lists: names of the libraries, Boolean tests, 64-bit words, lemmas on lists.
--   Bytes: numbers as bytes, and copies into a memory.
--   Core/Buffer: core/include/marlin/core/BaseBuffer.ipp and core/src/Buffer.cpp; below it Valid on the
--     bounds, Window on the bytes that a buffer shows, Endian on numbers in both byte orders.
--   Core/Fibers: the framing fibers of core/include/marlin/core/fibers; Fibers/Length and
--     Fibers/Sentinel on frames that arrive in pieces.
--   Lpf/Resume: the loop of did_recv that both buffers of lpf share; Resume/Laws and Resume/Pieces on
--     bytes that arrive in pieces. Lpf/Store: StoreThenForwardBuffer.hpp, with Lengths,
--     Messages and Resumes on its steps; Lpf/CutThrough: CutThroughBuffer.hpp, with Stores against the
--     storing buffer; Lpf/Transport: LpfTransport.hpp, with Ids and Exhausted on the ids of streams, Frames on messages that are sent and received,
--     Memory on what is stored. Lpf/OverStream: the storing buffer on a stream of the transport below.
--   Simulator: simulator/include/marlin/simulator/core and simulator/src/core, the queue of events and the
--     loop that runs them; below it Order on the order in which they run, Indexes on the two indexes.
--   Dict: `std::map` and `std::unordered_map` as lists sorted by key; Dict/Sorted: their order.
--   AckRanges: protocol/AckRanges.hpp, the set of packet numbers that a receiver has seen, kept as
--     alternating lengths of runs. Seen says which numbers a list stands for, Gap and Walk treat the
--     insertion into a gap and the walk along the list, Valid and Insert the invariant and the set.
--   Stream/Types: the state of StreamTransport.hpp with SendStream.hpp and RecvStream.hpp, the messages,
--     and the effects of a step.
--   Stream/Handshake: send_DIAL, did_recv_DIAL, send_DIALCONF, did_recv_DIALCONF, send_CONF,
--     did_recv_CONF, send_RST, did_recv_RST, did_dial and dial_timer_cb.
--   Stream/Receive: did_recv_DATA, send_ACK, ack_timer_cb, check_finish and check_read; below it Slice,
--     Drain, InOrder, Progress and Again on the bytes that the application is given.
--   Stream/Send: send, send_DATA, send_lost_data, send_new_data, pacing_timer_cb, send_pending_data and
--     register_send_intent; below it Fragments and Sound
--     on the loop over an item, Holding, Bounded, Sender and Queueing on what the queues and the
--     messages hold.
--   Stream/Ack: did_recv_ACK and tlp_timer_cb; below it Exact on the packets that an ACK takes off.
--   Stream/Skip: skip_stream, flush_stream, their timers, and SKIPSTREAM, FLUSHSTREAM and FLUSHCONF.
--   Stream/Close: close, close_timer_cb, did_close, CLOSE and CLOSECONF.
--   Stream/Wire: Messages.hpp and the switch of did_recv, the messages as bytes; Wire/RoundTrip.
--   Stream/Step: the entry points of a transport as the events of a step function.
--   Stream/EndToEnd: from the queue of one transport to the application of another.
--   Stream/Conn: the connection state under every event; Stream/Meets: two transports that connect;
--   Stream/Retries: time-outs; Stream/Flight: the bytes in flight against the packets sent,
--     through the pacing timer (Sending), losses (Losses), ACKs (Between, Acks) and a flush (Flush).
--
-- A transport is a record, and every handler is a function from it to it. What a handler does outside,
-- sending a message, calling the delegate or closing the base transport, is an effect that it puts in
-- front of the list `out`; a handler runs to its end before the delegate's own calls, which are further
-- events. An access through a dangling pointer or past the end of a map is the effect `fault`, and so is
-- the step that leaves `next_item_iterator` dangling: what the code does from there on is undefined.
--
-- Numbers are natural numbers, and the arithmetic of uint64_t wraps at 2 ^ 64 (`add64`, `sub64`). The
-- pointers of a sent packet to its stream and its data item are the stream's id and the offset of the
-- item in the stream, and the id of no stream once the stream is erased; the iterator `next_item_iterator` is a position in the queue. The estimate `rtt`,
-- a double, is kept as the list of its samples. The double arithmetic of the congestion control,
-- libsodium, the clock, the random numbers and the answers of the delegate are parameters (`Env`), with
-- libsodium's documented laws as hypotheses where a theorem needs them.
--
-- Loops are recursion on the list they run over. The loop over the fragments of an item has as fuel one
-- more than the item's length, and it advances by 1350 bytes in each round.
--
-- The did_recv of the lpf buffers calls itself on the bytes that are left; its fuel is 2 more than twice
-- their number, since only the step behind a length of 0 uses up no byte. A read behind the bytes that
-- came in ends it with the result `reads_past`, which none of the source's is. Lpf reads and writes its
-- lengths through Core/Buffer; elsewhere a buffer is the list of the bytes that it shows. The transport
-- below lpf and its application are records of operations on states of their own.
--
-- The loop of the simulator has no bound, and it is modelled for any number of rounds.
--
-- Not modelled: the encryption of DATA, which is switched off (`is_encrypted`), logging, the getters
-- (get_rtt, is_active, is_internal, the keys), and `did_send` of the base transport; calls of an lpf
-- application back into the transport from inside a callback. StreamFiber.hpp, a variant of the
-- transport for the fiber stack, and the other directories of the repository (the rest of core,
-- asyncio, the simulated network, beacon, pubsub, rlpx, the integrations and the programs) are not modelled.
pub mod AckRanges
pub mod Base
pub mod Bytes
pub mod Core
pub mod Dict
pub mod Lpf
pub mod Simulator
pub mod Stream
