-- ===== src/Stream/Receive.antt =====
-- StreamTransport.hpp and protocol/RecvStream.hpp: how DATA is received, put in order and delivered.
pub mod Slice
pub mod Drain
pub mod InOrder
pub mod Again
pub mod Progress
use open_weaver.Base.{
  ℕ, ◌-◌, max, Bool, true, false, not, ◌||◌, none, some, List, [], ◌∷◌, ltb, leb, ◌==◌,
  if◌then◌else◌, add64, sub64, length, take, drop,
}
use open_weaver.Dict.{Dict, lookup, assign, try_emplace, erase}
use open_weaver.AckRanges.{add_packet_number}
use open_weaver.Stream.Types.{
  Transport, started, ack_timer_cb, RecvStream, RecvPacketInfo, RecvState, new_recv_stream, recv,
  size_known, all_recv, read, dial_rcvd, established, Effect, delivers, sends, ack_msg, Env, emit,
}
use open_weaver.Stream.Handshake.{ids_match, send_rst, notify_dialled}

unfoldable pub check_finish_from : ℕ → ℕ → Dict RecvPacketInfo → Bool
check_finish_from size offset [] = offset == size
check_finish_from size offset ((key, p) ∷ rest) =
    let next = check_finish_from size (max offset (add64 p.offset p.length)) rest in
    if ltb offset p.offset then false else next

unfoldable pub check_finish : RecvStream → Bool
check_finish s = elim s.state [
  | recv ↦ false
  | all_recv ↦ true
  | read ↦ true
  | size_known ↦ check_finish_from s.size s.read_offset s.recv_packets
]

unfoldable pub check_read : RecvStream → Bool
check_read s = elim s.state [ recv ↦ false | _ ↦ s.read_offset == s.size ]

-- What the loop over the packets that came out of order leaves.
pub record Drained : Type 0 where
  pub read_offset : ℕ
  pub packets : Dict RecvPacketInfo
  pub out : List Effect
  pub accepted : Bool

-- Delivers packets while they continue the stream. A packet that the delegate refuses stays in the
-- map, with its buffer moved out.
unfoldable pub drain : Env → ℕ → ℕ → Dict RecvPacketInfo → List Effect → Drained
drain e id offset [] out = record { read_offset = offset; packets = []; out = out; accepted = true }
drain e id offset ((key, p) ∷ rest) out =
    let bytes = drop (sub64 offset p.offset) p.packet in
    let delivered = drain e id (add64 p.offset p.length) rest (delivers bytes id ∷ out) in
    let skipped = drain e id offset rest out in
    if ltb offset p.offset
    then record { read_offset = offset; packets = (key, p) ∷ rest; out = out; accepted = true }
    else if ltb offset (add64 p.offset p.length)
    then (if e.accepts id offset bytes then delivered else record {
      read_offset = offset;
      packets = (key, record p { packet = [] }) ∷ rest;
      out = delivers bytes id ∷ out;
      accepted = false;
    })
    else skipped

abbrev pub put_recv_stream : ℕ → RecvStream → Transport → Transport
put_recv_stream id s t = record t { recv_streams = assign id s t.recv_streams }

-- A packet that starts at or before the read offset and ends behind it.
unfoldable pub deliver_now : Env → (id offset len : ℕ) → List ℕ → RecvStream → Transport → Transport
deliver_now e id offset len p s t =
    let bytes = drop (sub64 s.read_offset offset) p in
    let t' = emit (delivers bytes id) t in
    if e.accepts id s.read_offset bytes
    then (let d = drain e id (add64 offset len) s.recv_packets t'.out in
        let s' = record s { read_offset = d.read_offset; recv_packets = d.packets } in
        let t'' = record t' { out = d.out } in
        if d.accepted
        then (if check_read s'
            then record t'' { recv_streams = erase id t''.recv_streams }
            else put_recv_stream id s' t'')
        else put_recv_stream id s' t'')
    else put_recv_stream id s t'

-- A packet that starts behind the read offset waits.
unfoldable pub queue_packet :
    Env → (id offset len : ℕ) → List ℕ → RecvStream → Transport → Transport
queue_packet e id offset len p s t =
    let info : RecvPacketInfo = record {
      recv_time = e.now;
      offset = offset;
      length = len;
      packet = p;
    } in
    let s' = record s { recv_packets = try_emplace offset info s.recv_packets } in
    put_recv_stream id (if check_finish s' then record s' { state = all_recv } else s') t

-- `ack_ranges.add_packet_number` and the start of the ack timer.
unfoldable pub note_packet : ℕ → Transport → Transport
note_packet packet_number t =
    let t' = record t { ack_ranges = add_packet_number t.ack_ranges packet_number } in
    if t.ack_timer_active
    then t'
    else record t' { ack_timer_active = true; ack_timer = started ack_timer_cb 25 }

-- The fin bit fixes the stream's size.
unfoldable pub note_fin : Bool → (offset len : ℕ) → RecvStream → RecvStream
note_fin fin offset len s = elim s.state [
  | recv ↦ if fin then record s { size = add64 offset len; state = size_known } else s
  | _ ↦ s
]

abbrev pub is_done : RecvState → Bool
is_done all_recv = true
is_done read = true
is_done _ = false

-- The part of `did_recv_DATA` behind the checks of connection: the payload ends with 16 bytes of tag
-- and 12 of nonce.
unfoldable pub recv_on_stream :
    Env → Bool → (packet_number id offset len : ℕ) → List ℕ → Transport → Transport
recv_on_stream e fin packet_number id offset len payload t =
    let t1 = record t { recv_streams = try_emplace id new_recv_stream t.recv_streams } in
    let s = elim (lookup id t.recv_streams) as (λ _. RecvStream) [
      | none ↦ new_recv_stream
      | some s ↦ s
    ] in
    let s1 = note_fin fin offset len s in
    let p = take (length payload - 28) payload in
    let t2 = note_packet packet_number (put_recv_stream id s1 t1) in
    if is_done s.state || s.wait_flush
    then t1
    else if not (length p == len)
    then put_recv_stream id s1 t1
    else if leb (add64 offset len) s1.read_offset
    then t2
    else if leb offset s1.read_offset
    then deliver_now e id offset len p s1 t2
    else queue_packet e id offset len p s1 t2

unfoldable pub did_recv_data :
    Env → Bool → (src dst packet_number id offset len : ℕ) → List ℕ → Transport → Transport
did_recv_data e fin src dst packet_number id offset len payload t =
    if ltb (length payload) 28
    then t
    else if not (ids_match src dst t)
    then send_rst src dst t
    else elim t.conn_state [
      | dial_rcvd ↦
          recv_on_stream e fin packet_number id offset len payload
            (notify_dialled (record t { conn_state = established }))
      | established ↦ recv_on_stream e fin packet_number id offset len payload t
      | _ ↦ t
    ]

-- At most 171 ranges go into an ACK.
unfoldable pub send_ack : Transport → Transport
send_ack t =
    emit
      (sends
        (ack_msg t.src_conn_id t.dst_conn_id t.ack_ranges.largest (take 171 t.ack_ranges.ranges)))
      t

unfoldable pub on_ack_timer : Transport → Transport
on_ack_timer t = record (send_ack t) { ack_timer_active = false }
