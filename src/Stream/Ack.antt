-- ===== src/Stream/Ack.antt =====
-- StreamTransport.hpp: what an ACK does to the packets in flight, the streams and the congestion window,
-- and when packets count as lost.
pub mod Exact
use open_weaver.Base.{
  ℕ, ◌-◌, ◌*◌, ◌/◌, Bool, true, false, not, ◌&&◌, ◌||◌, Option, none, some, List, [], ◌∷◌, ltb, leb,
  ◌==◌, if◌then◌else◌, add64, sub64, length,
}
use open_weaver.Dict.{Dict, lookup, assign, erase}
use open_weaver.Stream.Types.{
  Transport, started, stopped, tlp_timer_cb, SendStream, SendState, sent, DataItem, SentPacketInfo,
  established, ConnectionState, fault, did_send, Env, emit, default_tlp_interval, max64,
}
use open_weaver.Stream.Handshake.{ids_match, send_rst, reset_and_close}
use open_weaver.Stream.Send.{put_send_stream, is_empty, resolve, send_pending_data, is_idle}

-- Acknowledged stretches that start at or before the acknowledged offset extend it.
unfoldable pub merge_outstanding : ℕ → Dict ℕ → ℕ × Dict ℕ
merge_outstanding offset [] = (offset, [])
merge_outstanding offset ((o, n) ∷ rest) =
    let next = merge_outstanding (if ltb offset (add64 o n) then add64 o n else offset) rest in
    if ltb offset o then (offset, (o, n) ∷ rest) else next

-- Items that lie before the acknowledged offset leave the queue, and are handed back to the delegate.
unfoldable pub drop_acked : ℕ → List DataItem → List DataItem × List (List ℕ)
drop_acked offset [] = ([], [])
drop_acked offset (item ∷ items) =
    let (kept, done) = drop_acked offset items in
    if ltb offset (add64 item.stream_offset (length item.bytes))
    then (item ∷ items, [])
    else (kept, item.bytes ∷ done)

-- The acknowledgement of `len` bytes at an offset of a stream: the stream after it, and the buffers that
-- are done. With the whole queue done the iterator stands at its end; if the item it points at is done and
-- a later one is not, it dangles, see `loses_place`.
unfoldable pub ack_stream : (offset len : ℕ) → SendStream → SendStream × List (List ℕ)
ack_stream offset len s =
    if ltb s.acked_offset offset
    then (record s { outstanding_acks = assign offset len s.outstanding_acks }, [])
    else if ltb s.acked_offset (add64 offset len)
    then (let (acked_to, left) = merge_outstanding (add64 offset len) s.outstanding_acks in
        let (kept, done) = drop_acked acked_to s.data_queue in
        (
          record s {
            acked_offset = acked_to;
            outstanding_acks = left;
            data_queue = kept;
            next_item = s.next_item - length done;
          },
          done,
        ))
    else (s, [])

-- `next_item_iterator` points at an item that is erased, and the queue does not become empty: the iterator
-- dangles.
unfoldable pub loses_place : SendStream → SendStream × List (List ℕ) → Bool
loses_place s (s1, done) = not (is_empty s1.data_queue) && ltb s.next_item (length done)

unfoldable pub hand_back : List (List ℕ) → Transport → Transport
hand_back [] t = t
hand_back (b ∷ bs) t = hand_back bs (emit (did_send b) t)

-- Slow start below the threshold, New Reno above it.
unfoldable pub grow_window : Bool → SentPacketInfo → Transport → Transport
grow_window app_limited p t =
    let slow : ℕ = add64 t.congestion_window p.length in
    let reno : ℕ = add64 t.congestion_window (1500 * p.length / t.congestion_window) in
    if ltb t.congestion_start p.sent_time && not app_limited
    then record t { congestion_window = if ltb t.congestion_window t.ssthresh then slow else reno }
    else t

abbrev pub is_sent : SendState → Bool
is_sent sent = true
is_sent _ = false

-- No stream has this id: an id has 16 bits.
abbrev pub no_stream : ℕ
no_stream = 65536

-- The pointers of packets to a stream that is erased dangle, also when a stream is made anew under its id.
unfoldable pub orphan : ℕ → Dict SentPacketInfo → Dict SentPacketInfo
orphan id [] = []
orphan id ((key, p) ∷ m) =
    (key, if p.stream == id then record p { stream = no_stream } else p) ∷ orphan id m

unfoldable pub orphan_ids : ℕ → List ℕ → List ℕ
orphan_ids id [] = []
orphan_ids id (j ∷ js) = (if j == id then no_stream else j) ∷ orphan_ids id js

-- `send_streams.erase`, with all that points at the stream.
unfoldable pub erase_send_stream : ℕ → Transport → Transport
erase_send_stream id t = record t {
  send_streams = erase id t.send_streams;
  sent_packets = orphan id t.sent_packets;
  lost_packets = orphan id t.lost_packets;
  send_queue = orphan_ids id t.send_queue;
}

-- One acknowledged packet, without its removal. The flag says that the stream is finished, at which
-- `did_recv_ACK` returns. An iterator that dangles from here on is the effect `fault` at once.
unfoldable pub ack_packet :
    Bool → SentPacketInfo → SendStream × DataItem → Transport → Transport × Bool
ack_packet app_limited p (s, item) t =
    let (s1, done) = ack_stream (add64 item.stream_offset p.offset) p.length s in
    let s2 = record s1 { bytes_in_flight = sub64 s1.bytes_in_flight p.length } in
    let t1 = hand_back done (if loses_place s (s1, done) then emit fault t else t) in
    let t2 =
      grow_window app_limited p
        (record t1 { bytes_in_flight = sub64 t1.bytes_in_flight p.length }) in
    if is_sent s2.state && s2.acked_offset == s2.queue_offset
    then (erase_send_stream p.stream t2, true)
    else (put_send_stream p.stream s2 t2, false)

-- The loop over the packets of one range; each is erased when it has been handled.
unfoldable pub ack_packets : Bool → Dict SentPacketInfo → Transport → Transport × Bool
ack_packets app_limited [] t = (t, false)
ack_packets app_limited ((key, p) ∷ rest) t =
    let one = λ (q : SendStream × DataItem). ack_packet app_limited p q t in
    let go_on = λ (t' : Transport).
      ack_packets app_limited rest (record t' { sent_packets = erase key t'.sent_packets }) in
    elim (resolve p t) [
      | none ↦ (emit fault t, true)
      | some q ↦
          let (t', finished) = one q in elim finished [ true ↦ (t', true) | false ↦ go_on t' ]
    ]

-- `[lower_bound(lo), upper_bound(hi))`
unfoldable pub between : (lo hi : ℕ) → Dict SentPacketInfo → Dict SentPacketInfo
between lo hi [] = []
between lo hi ((key, p) ∷ m) =
    if leb lo key && leb key hi then (key, p) ∷ between lo hi m else between lo hi m

-- `lower_bound(lo)` lies behind `upper_bound(hi)`: a packet number lies between.
unfoldable pub overruns : (lo hi : ℕ) → Dict SentPacketInfo → Bool
overruns lo hi [] = false
overruns lo hi ((key, p) ∷ m) = (ltb hi key && ltb key lo) || overruns lo hi m

-- The packets of a range `(low, high]`. Where the first iterator starts behind the last one the loop
-- runs to the end of the map and past it.
unfoldable pub ack_range : Bool → (low high : ℕ) → Transport → Transport × Bool
ack_range app_limited low high t =
    let lo = add64 low 1 in
    let to_end = ack_packets app_limited (between lo max64 t.sent_packets) t in
    let past_end : Transport × Bool = elim to_end.1 [
      | true ↦ to_end
      | false ↦ (emit fault to_end.0, true)
    ] in
    if overruns lo high t.sent_packets
    then past_end
    else ack_packets app_limited (between lo high t.sent_packets) t

unfoldable pub ack_all_ranges : Bool → ℕ → Bool → List ℕ → Transport → Transport × Bool
ack_all_ranges app_limited high gap [] t = (t, false)
ack_all_ranges app_limited high gap (r ∷ rs) t =
    let low = sub64 high r in
    let one = ack_range app_limited low high t in
    let skip = ack_all_ranges app_limited low (not gap) rs t in
    let go_on = λ (t' : Transport). ack_all_ranges app_limited low (not gap) rs t' in
    elim gap [ true ↦ skip | false ↦ elim one.1 [ true ↦ one | false ↦ go_on one.0 ] ]

-- The largest packet number is news: it measures the round trip.
unfoldable pub note_largest : Env → ℕ → Transport → Transport
note_largest e largest t = elim (lookup largest t.sent_packets) [
  | none ↦ t
  | some p ↦
      if ltb t.largest_acked largest
      then record t {
        largest_acked = largest;
        largest_sent_time = p.sent_time;
        rtt_samples = sub64 e.now p.sent_time ∷ t.rtt_samples;
      }
      else t
]

-- One packet moves from the sent ones to the lost ones, without its removal from the sent ones.
unfoldable pub mark_lost : ℕ → SentPacketInfo → Transport → Transport
mark_lost key p t =
    let t1 = record t {
      bytes_in_flight = sub64 t.bytes_in_flight p.length;
      lost_packets = assign key p t.lost_packets;
    } in
    elim (lookup p.stream t.send_streams) [
      | none ↦ emit fault t1
      | some s ↦
          put_send_stream p.stream (record s { bytes_in_flight = sub64 s.bytes_in_flight p.length })
            t1
    ]

-- What a run over the sent packets leaves: the transport, the packets behind the run, and the time at
-- which the last packet of the run was sent, if there is one.
pub record LossScan : Type 0 where
  pub transport : Transport
  pub left : Dict SentPacketInfo
  pub last_time : Option ℕ

-- Sent packets from the first on count as lost while `test` holds of the time at which they were sent.
unfoldable pub scan_lost : (ℕ → Bool) → Option ℕ → Dict SentPacketInfo → Transport → LossScan
scan_lost test last [] t = record { transport = t; left = []; last_time = last }
scan_lost test last ((key, p) ∷ rest) t =
    let next = scan_lost test (some p.sent_time) rest (mark_lost key p t) in
    if test p.sent_time
    then next
    else record { transport = t; left = (key, p) ∷ rest; last_time = last }

abbrev pub min_window : ℕ
min_window = 10000

-- A congestion event, unless the last lost packet was sent before the last event.
unfoldable pub congestion_event : Env → ℕ → Transport → Transport
congestion_event e sent_time t =
    let scaled =
      if ltb t.congestion_window t.w_max
      then e.floats.scale_fast t.congestion_window
      else e.floats.scale_slow t.congestion_window in
    let window = if ltb scaled min_window then min_window else scaled in
    if ltb t.congestion_start sent_time
    then record t {
      congestion_start = e.now;
      w_max = t.congestion_window;
      congestion_window = window;
      ssthresh = window;
      k = e.floats.cubic_k t.congestion_window;
    }
    else t

-- The run over the sent packets, the congestion event and the removal of the lost packets.
unfoldable pub detect_lost : Env → (ℕ → Bool) → Transport → Transport
detect_lost e test t =
    let r = scan_lost test none t.sent_packets t in
    elim r.last_time [
      | none ↦ r.transport
      | some time ↦ record (congestion_event e time r.transport) { sent_packets = r.left }
    ]

abbrev pub is_established : ConnectionState → Bool
is_established established = true
is_established _ = false

-- A packet is lost if one sent more than 50 ms after it was acknowledged.
abbrev pub sent_too_early : ℕ → ℕ → Bool
sent_too_early largest_sent_time sent_time = ltb (add64 sent_time 50) largest_sent_time

unfoldable pub did_recv_ack : Env → (src dst largest : ℕ) → List ℕ → Transport → Transport
did_recv_ack e src dst largest ranges t =
    let t1 = note_largest e largest t in
    let app_limited = e.floats.below_window t1.bytes_in_flight t1.congestion_window in
    let r = ack_all_ranges app_limited largest false ranges t1 in
    let t2 = send_pending_data (detect_lost e (sent_too_early r.0.largest_sent_time) r.0) in
    if not (is_established t.conn_state)
    then t
    else if not (ids_match src dst t)
    then send_rst src dst t
    else if r.1
    then r.0
    else record t2 {
      tlp_interval = default_tlp_interval;
      tlp_timer = started tlp_timer_cb default_tlp_interval;
    }

-- The tail loss probe: all packets in flight count as lost.
unfoldable pub on_tlp_timer : Env → Transport → Transport
on_tlp_timer e t =
    let t1 = send_pending_data (detect_lost e (λ _. true) t) in
    let doubled : ℕ = t1.tlp_interval * 2 in
    if is_idle t
    then record t { tlp_timer = stopped; tlp_interval = default_tlp_interval }
    else if ltb t1.tlp_interval 25000
    then record t1 { tlp_interval = doubled; tlp_timer = started tlp_timer_cb doubled }
    else reset_and_close 0 t1
