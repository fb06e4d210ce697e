-- ===== src/Stream/Send.antt =====
-- StreamTransport.hpp and protocol/SendStream.hpp: how queued data is cut into DATA messages, paced, and
-- sent again when it was lost.
pub mod Fragments
pub mod Sound
pub mod Holding
pub mod Bounded
pub mod Sender
pub mod Queueing
mod Tests
use open_weaver.Base.{
  ℕ, zero, suc, ◌+◌, Bool, true, false, not, ◌&&◌, ◌||◌, Option, none, some, List, [], ◌∷◌, ◌++◌,
  ltb, leb, ◌==◌, if◌then◌else◌, add64, sub64, length, take, drop,
}
use open_weaver.Dict.{Dict, lookup, assign, try_emplace}
use open_weaver.Stream.Types.{
  Transport, started, pacing_timer_cb, tlp_timer_cb, SendStream, SendState, ready, send, sent,
  acked, DataItem, SentPacketInfo, new_send_stream, established, sends, fault, data_msg, Env, emit,
  default_pacing_limit, default_fragment_size,
}

abbrev pub put_send_stream : ℕ → SendStream → Transport → Transport
put_send_stream id s t = record t { send_streams = assign id s t.send_streams }

abbrev pub is_acked : SendState → Bool
is_acked acked = true
is_acked _ = false

-- `is_fin` of `send_DATA`
abbrev pub is_fin : SendStream → DataItem → (offset len : ℕ) → Bool
is_fin s item offset len =
    s.done_queueing && leb s.queue_offset (add64 (add64 item.stream_offset offset) len)

-- `send_DATA`, up to the stream's state. Behind the data of a packet stand 16 bytes for the tag of the
-- encryption, which is switched off, and the nonce.
unfoldable pub send_data :
    Env → ℕ → SendStream → DataItem → (offset len : ℕ) → Transport → Transport
send_data e id s item offset len t =
    let packet_number = add64 t.last_sent_packet 1 in
    let info : SentPacketInfo = record {
      sent_time = e.now;
      stream = id;
      data_item = item.stream_offset;
      offset = offset;
      length = len;
    } in
    emit
      (sends (
        data_msg (is_fin s item offset len) t.src_conn_id t.dst_conn_id packet_number id
          (add64 item.stream_offset offset) len
          (take len (drop offset item.bytes) ++ (e.unset_tag ++ t.keys.nonce))))
      (record t {
        last_sent_packet = packet_number;
        sent_packets = try_emplace packet_number info t.sent_packets;
      })

-- The last step of `send_DATA`.
unfoldable pub note_sent : DataItem → (offset len : ℕ) → SendStream → SendStream
note_sent item offset len s =
    if is_fin s item offset len && not (is_acked s.state) then record s { state = sent } else s

-- The results 0, -1 and -2 of the sending loops.
pub data Progress : Type 0 where
  complete pacing_limit_hit window_full : Progress

abbrev pub is_empty {ℓ} : {A : Type ℓ} → List A → Bool
is_empty [] = true
is_empty (x ∷ xs) = false

-- The item at an offset of the stream. A packet never belongs to an item without bytes, which can stand
-- at the same offset.
unfoldable pub find_item : ℕ → List DataItem → Option DataItem
find_item o [] = none
find_item o (item ∷ items) =
    if item.stream_offset == o && not (is_empty item.bytes) then some item else find_item o items

-- The stream and the item that a packet's pointers lead to, if they do not dangle: a packet of a stream
-- that was erased has the id of no stream, and a stream does not use an offset for a second item.
unfoldable pub resolve : SentPacketInfo → Transport → Option (SendStream × DataItem)
resolve p t = elim (lookup p.stream t.send_streams) [
  | none ↦ none
  | some s ↦ elim (find_item p.data_item s.data_queue) [ none ↦ none | some item ↦ some (s, item) ]
]

-- One lost packet is sent again under a new number.
unfoldable pub resend : Env → SentPacketInfo → SendStream × DataItem → Transport → Transport
resend e p (s, item) t =
    let t' = send_data e p.stream s item p.offset p.length t in
    let s' = note_sent item p.offset p.length s in
    record (put_send_stream p.stream
      (record s' { bytes_in_flight = add64 s'.bytes_in_flight p.length }) t') {
        bytes_in_flight = add64 t'.bytes_in_flight p.length;
      }

abbrev pub start_pacing : ℕ → Transport → Transport
start_pacing ms t = record t {
  is_pacing_timer_active = true;
  pacing_timer = started pacing_timer_cb ms;
}

-- The loop of `send_lost_data` over the packets that are left.
unfoldable pub send_lost : Env → ℕ → Dict SentPacketInfo → Transport → Transport × Progress
send_lost e initial [] t = (t, complete)
send_lost e initial ((key, p) ∷ rest) t =
    let go_on = λ (q : SendStream × DataItem).
      send_lost e initial rest (record (resend e p q t) { lost_packets = rest }) in
    if leb default_pacing_limit (sub64 t.bytes_in_flight initial)
    then (start_pacing 1 t, pacing_limit_hit)
    else if ltb (sub64 t.congestion_window p.length) t.bytes_in_flight
    then (t, window_full)
    else elim (resolve p t) [ none ↦ (emit fault t, window_full) | some q ↦ go_on q ]

unfoldable pub send_lost_data : Env → ℕ → Transport → Transport × Progress
send_lost_data e initial t = send_lost e initial t.lost_packets t

-- The loop over an item's fragments carries the stream, the item and the transport.
pub record Sending : Type 0 where
  pub stream : SendStream
  pub item : DataItem
  pub transport : Transport
  pub progress : Progress

unfoldable pub fragment_size : DataItem → ℕ
fragment_size item =
    let remaining = sub64 (length item.bytes) item.sent_offset in
    if ltb default_fragment_size remaining then default_fragment_size else remaining

unfoldable pub send_fragment : Env → ℕ → ℕ → SendStream → DataItem → Transport → Sending
send_fragment e id i s item t =
    let dsize = fragment_size item in
    let t' = send_data e id s item i dsize t in
    let s' = note_sent item i dsize s in
    record {
      stream = record s' {
        bytes_in_flight = add64 s'.bytes_in_flight dsize;
        sent_offset = add64 s'.sent_offset dsize;
      };
      item = record item { sent_offset = add64 item.sent_offset dsize };
      transport = record t' { bytes_in_flight = add64 t'.bytes_in_flight dsize };
      progress = complete;
    }

-- `for (i = sent_offset; i < size; i += 1350)`; the fuel bounds the rounds that are left. `i` stays near
-- the size of a buffer in memory, so it does not wrap.
unfoldable pub send_fragments :
    ℕ → Env → (id initial i : ℕ) → SendStream → DataItem → Transport → Sending
send_fragments zero e id initial i s item t = record {
  stream = s;
  item = item;
  transport = t;
  progress = complete;
}
send_fragments (suc fuel) e id initial i s item t =
    let stop = λ (p : Progress).
      let r : Sending = record { stream = s; item = item; transport = t; progress = p } in r in
    let r = send_fragment e id i s item t in
    let next =
      send_fragments fuel e id initial (i + default_fragment_size) r.stream r.item r.transport in
    if leb (length item.bytes) i
    then stop complete
    else if ltb (sub64 t.congestion_window (fragment_size item)) t.bytes_in_flight
    then stop window_full
    else if ltb default_pacing_limit (sub64 t.bytes_in_flight initial)
    then stop pacing_limit_hit
    else next

-- The loop of `send_new_data` from the item at `next_item_iterator` on; `before` is the queue in front.
unfoldable pub send_items :
    Env
    → (id initial : ℕ) → List DataItem
    → List DataItem
    → SendStream
    → Transport
    → SendStream × Transport × Progress
send_items e id initial before [] s t =
    (record s { data_queue = before; next_item = length before }, t, complete)
send_items e id initial before (item ∷ items) s t =
    let r = send_fragments (suc (length item.bytes)) e id initial item.sent_offset s item t in
    let next = send_items e id initial (before ++ r.item ∷ []) items r.stream r.transport in
    let here = record r.stream {
      data_queue = before ++ (r.item ∷ items);
      next_item = length before;
    } in
    elim r.progress [ complete ↦ next | p ↦ (here, r.transport, p) ]

unfoldable pub send_new_data :
    Env → (id initial : ℕ) → SendStream → Transport → SendStream × Transport × Progress
send_new_data e id initial s t =
    send_items e id initial (take s.next_item s.data_queue) (drop s.next_item s.data_queue) s t

unfoldable pub remove_id : ℕ → List ℕ → List ℕ
remove_id id [] = []
remove_id id (j ∷ js) = if j == id then remove_id id js else j ∷ remove_id id js

-- The loop of `pacing_timer_cb` over the streams with data.
unfoldable pub pace : Env → ℕ → List ℕ → Transport → Transport
pace e initial [] t = t
pace e initial (id ∷ rest) t =
    let idle = λ (s : SendStream) (t' : Transport).
      pace e initial rest (record (put_send_stream id s t') {
        send_queue_ids = remove_id id t'.send_queue_ids;
        send_queue = rest;
      }) in
    elim (lookup id t.send_streams) [
      | none ↦ emit fault t
      | some s ↦
          let (s', t', p) = send_new_data e id initial s t in
          elim p [
            | complete ↦ idle s' t'
            | pacing_limit_hit ↦ start_pacing 1 (put_send_stream id s' t')
            | window_full ↦ put_send_stream id s' t'
          ]
    ]

unfoldable pub on_pacing_timer : Env → Transport → Transport
on_pacing_timer e t =
    let t0 = record t { is_pacing_timer_active = false } in
    let (t1, p) = send_lost_data e t0.bytes_in_flight t0 in
    elim p [ complete ↦ pace e t0.bytes_in_flight t1.send_queue t1 | _ ↦ t1 ]

unfoldable pub send_pending_data : Transport → Transport
send_pending_data t = if t.is_pacing_timer_active then t else start_pacing 0 t

unfoldable pub has_id : ℕ → List ℕ → Bool
has_id id [] = false
has_id id (j ∷ js) = j == id || has_id id js

unfoldable pub register_send_intent : ℕ → Transport → Transport
register_send_intent id t =
    if has_id id t.send_queue_ids
    then t
    else record t { send_queue = t.send_queue ++ id ∷ []; send_queue_ids = id ∷ t.send_queue_ids }

-- No packet is in flight or lost, and no stream has data: the tail loss probe is not running.
abbrev pub is_idle : Transport → Bool
is_idle t = is_empty t.sent_packets && is_empty t.lost_packets && is_empty t.send_queue

-- The results 0, -1 and -2 of `send`.
pub data SendResult : Type 0 where
  queued queue_overflow not_established : SendResult

abbrev pub max_queued : ℕ
max_queued = 20000000

-- An item joins the queue; a stream that had nothing to send points at it.
unfoldable pub enqueue : List ℕ → SendStream → SendStream
enqueue bytes s =
    let idle = s.next_item == length s.data_queue in
    let item : DataItem = record {
      bytes = bytes;
      sent_offset = 0;
      stream_offset = s.queue_offset;
    } in
    record s {
      data_queue = s.data_queue ++ item ∷ [];
      queue_offset = add64 s.queue_offset (length bytes);
      next_item = if idle then length s.data_queue else s.next_item;
    }

-- `send` on a stream that is there.
unfoldable pub send_on_stream : ℕ → List ℕ → SendStream → Transport → Transport × SendResult
send_on_stream id bytes s t =
    let s1 = record s { state = elim s.state [ ready ↦ send | other ↦ other ] } in
    let t1 = put_send_stream id (enqueue bytes s1) t in
    let t2 =
      if is_idle t then record t1 { tlp_timer = started tlp_timer_cb t.tlp_interval } else t1 in
    if ltb max_queued (sub64 s.queue_offset s.acked_offset)
    then (put_send_stream id s1 t, queue_overflow)
    else (send_pending_data (register_send_intent id t2), queued)

unfoldable pub send_bytes : ℕ → List ℕ → Transport → Transport × SendResult
send_bytes id bytes t =
    let s = elim (lookup id t.send_streams) as (λ _. SendStream) [
      | none ↦ new_send_stream
      | some s ↦ s
    ] in
    elim t.conn_state [ established ↦ send_on_stream id bytes s t | _ ↦ (t, not_established) ]
