-- ===== src/Stream/Skip.antt =====
-- StreamTransport.hpp: a receiver that asks to skip the rest of a transmission (SKIPSTREAM), and a sender
-- that gives up what it has queued (FLUSHSTREAM, FLUSHCONF).
use open_weaver.Base.{
  ℕ, ◌*◌, true, false, not, none, some, [], ◌∷◌, ltb, leb, ◌==◌, if◌then◌else◌, add64, sub64,
}
use open_weaver.Dict.{Dict, lookup}
use open_weaver.Stream.Types.{
  Transport, started, stopped, skip_timer_cb, flush_timer_cb, SendStream, RecvStream,
  RecvPacketInfo, SentPacketInfo, new_send_stream, new_recv_stream, sends, did_recv_skip_stream,
  did_recv_flush_stream, did_recv_flush_conf, skipstream_msg, flushstream_msg, flushconf_msg, emit,
}
use open_weaver.Stream.Handshake.{ids_match, send_rst, reset_and_close}
use open_weaver.Stream.Send.{put_send_stream}
use open_weaver.Stream.Receive.{put_recv_stream}
use open_weaver.Stream.Ack.{is_established}

unfoldable pub send_skipstream : (id offset : ℕ) → Transport → Transport
send_skipstream id offset t = emit (sends (skipstream_msg t.src_conn_id t.dst_conn_id id offset)) t

unfoldable pub send_flushstream : (id offset : ℕ) → Transport → Transport
send_flushstream id offset t =
    emit (sends (flushstream_msg t.src_conn_id t.dst_conn_id id offset)) t

unfoldable pub send_flushconf : ℕ → Transport → Transport
send_flushconf id t = emit (sends (flushconf_msg t.src_conn_id t.dst_conn_id id)) t

-- `get_or_create_send_stream`
unfoldable pub get_or_create_send_stream : ℕ → Transport → SendStream × Transport
get_or_create_send_stream id t = elim (lookup id t.send_streams) [
  | none ↦ (new_send_stream, put_send_stream id new_send_stream t)
  | some s ↦ (s, t)
]

unfoldable pub get_or_create_recv_stream : ℕ → Transport → RecvStream × Transport
get_or_create_recv_stream id t = elim (lookup id t.recv_streams) [
  | none ↦ (new_recv_stream, put_recv_stream id new_recv_stream t)
  | some s ↦ (s, t)
]

-- The end of the last packet that came, or the read offset.
unfoldable pub skip_offset : ℕ → Dict RecvPacketInfo → ℕ
skip_offset read_offset [] = read_offset
skip_offset read_offset ((key, p) ∷ []) = add64 p.offset p.length
skip_offset read_offset (e ∷ f ∷ m) = skip_offset read_offset (f ∷ m)

unfoldable pub skip_stream : ℕ → Transport → Transport
skip_stream id t =
    let (s, t1) = get_or_create_recv_stream id t in
    let t2 = send_skipstream id (skip_offset s.read_offset s.recv_packets) t1 in
    put_recv_stream id
      (record s {
        wait_flush = true;
        state_timer_interval = 1000;
        state_timer = started skip_timer_cb 1000;
      })
      t2

-- `skip_timer_cb` on a stream of the map.
unfoldable pub on_skip_timer : ℕ → RecvStream → Transport → Transport
on_skip_timer id s t =
    let ms : ℕ = s.state_timer_interval * 2 in
    if leb 64000 s.state_timer_interval
    then reset_and_close 0 t
    else put_recv_stream id
        (record s { state_timer_interval = ms; state_timer = started skip_timer_cb ms })
        (send_skipstream id (skip_offset s.read_offset s.recv_packets) t)

-- The packets of other streams, and the bytes of the packets of this stream.
unfoldable pub without_stream : ℕ → Dict SentPacketInfo → Dict SentPacketInfo
without_stream id [] = []
without_stream id ((key, p) ∷ m) =
    if p.stream == id then without_stream id m else (key, p) ∷ without_stream id m

-- Takes the lengths of the stream's packets off a count, one after the other.
unfoldable pub release_stream : ℕ → Dict SentPacketInfo → ℕ → ℕ
release_stream id [] bytes = bytes
release_stream id ((key, p) ∷ m) bytes =
    release_stream id m (if p.stream == id then sub64 bytes p.length else bytes)

unfoldable pub flush_stream : ℕ → Transport → Transport
flush_stream id t =
    let (s, t1) = get_or_create_send_stream id t in
    let t2 = record t1 {
      sent_packets = without_stream id t1.sent_packets;
      lost_packets = without_stream id t1.lost_packets;
      bytes_in_flight =
          release_stream id t1.lost_packets (release_stream id t1.sent_packets t1.bytes_in_flight);
    } in
    let s1 = record s {
      data_queue = [];
      queue_offset = s.sent_offset;
      next_item = 0;
      bytes_in_flight = 0;
      acked_offset = s.sent_offset;
      outstanding_acks = [];
      state_timer_interval = 1000;
      state_timer = started flush_timer_cb 1000;
    } in
    put_send_stream id s1 (send_flushstream id s.sent_offset t2)

unfoldable pub on_flush_timer : ℕ → SendStream → Transport → Transport
on_flush_timer id s t =
    let ms : ℕ = s.state_timer_interval * 2 in
    if leb 64000 s.state_timer_interval
    then reset_and_close 0 t
    else put_send_stream id
        (record s { state_timer_interval = ms; state_timer = started flush_timer_cb ms })
        (send_flushstream id s.sent_offset t)

unfoldable pub did_recv_skipstream : (src dst id offset : ℕ) → Transport → Transport
did_recv_skipstream src dst id offset t =
    let (s, t1) = get_or_create_send_stream id t in
    if not (ids_match src dst t)
    then send_rst src dst t
    else if not (is_established t.conn_state)
    then t
    else if ltb offset s.acked_offset
    then send_flushstream id s.acked_offset t1
    else flush_stream id (emit (did_recv_skip_stream id) t1)

unfoldable pub did_recv_flushstream : (src dst id offset : ℕ) → Transport → Transport
did_recv_flushstream src dst id offset t =
    let (s, t1) = get_or_create_recv_stream id t in
    if not (ids_match src dst t)
    then send_rst src dst t
    else if not (is_established t.conn_state)
    then t
    else if leb offset s.read_offset
    then t1
    else send_flushconf id (
        emit (did_recv_flush_stream id offset s.read_offset) (
          put_recv_stream id
            (record s { state_timer = stopped; read_offset = offset; wait_flush = false }) t1))

unfoldable pub did_recv_flushconf : (src dst id : ℕ) → Transport → Transport
did_recv_flushconf src dst id t =
    let (s, t1) = get_or_create_send_stream id t in
    if not (ids_match src dst t)
    then send_rst src dst t
    else if not (is_established t.conn_state)
    then t
    else emit (did_recv_flush_conf id) (put_send_stream id (record s { state_timer = stopped }) t1)
