-- ===== src/Stream/Types.antt =====
-- The state of a `StreamTransport`: protocol/SendStream.hpp, protocol/RecvStream.hpp and the fields of
-- StreamTransport.hpp.
use open_weaver.Base.{ℕ, ◌-◌, ◌^◌, Bool, false, Option, List, [], ◌∷◌}
use open_weaver.Dict.{Dict}
use open_weaver.AckRanges
use open_weaver.AckRanges.{AckRanges}

-- Which member function a timer calls when it fires.
pub data Callback : Type 0 where
  dial_timer_cb close_timer_cb pacing_timer_cb tlp_timer_cb ack_timer_cb : Callback
  skip_timer_cb flush_timer_cb : Callback

-- `asyncio::Timer`, started with no repeat: what it calls, and after how many milliseconds.
pub data Timer : Type 0 where
  stopped : Timer
  started : Callback → ℕ → Timer

-- `DataItem`: bytes queued on a stream.
pub record DataItem : Type 0 where
  pub bytes : List ℕ
  pub sent_offset : ℕ
  pub stream_offset : ℕ

-- `SentPacketInfo`. The pointers `stream` and `data_item` are the stream's id and the offset of the
-- item in its stream.
pub record SentPacketInfo : Type 0 where
  pub sent_time : ℕ
  pub stream : ℕ
  pub data_item : ℕ
  pub offset : ℕ
  pub length : ℕ

pub data SendState : Type 0 where
  ready send sent acked : SendState

-- `SendStream`. `next_item` is the position of `next_item_iterator`; `end()` is the queue's length.
pub record SendStream : Type 0 where
  pub state : SendState
  pub data_queue : List DataItem
  pub queue_offset : ℕ
  pub sent_offset : ℕ
  pub next_item : ℕ
  pub bytes_in_flight : ℕ
  pub done_queueing : Bool
  pub acked_offset : ℕ
  pub outstanding_acks : Dict ℕ
  pub state_timer_interval : ℕ
  pub state_timer : Timer

abbrev pub new_send_stream : SendStream
new_send_stream = record {
  state = ready;
  data_queue = [];
  queue_offset = 0;
  sent_offset = 0;
  next_item = 0;
  bytes_in_flight = 0;
  done_queueing = false;
  acked_offset = 0;
  outstanding_acks = [];
  state_timer_interval = 1000;
  state_timer = stopped;
}

pub record RecvPacketInfo : Type 0 where
  pub recv_time : ℕ
  pub offset : ℕ
  pub length : ℕ
  pub packet : List ℕ

pub data RecvState : Type 0 where
  recv size_known all_recv read : RecvState

pub record RecvStream : Type 0 where
  pub state : RecvState
  pub wait_flush : Bool
  pub size : ℕ
  pub recv_packets : Dict RecvPacketInfo
  pub read_offset : ℕ
  pub state_timer_interval : ℕ
  pub state_timer : Timer

abbrev pub new_recv_stream : RecvStream
new_recv_stream = record {
  state = recv;
  wait_flush = false;
  size = 0;
  recv_packets = [];
  read_offset = 0;
  state_timer_interval = 1000;
  state_timer = stopped;
}

pub data ConnectionState : Type 0 where
  listen dial_sent dial_rcvd established closing : ConnectionState

-- The key material, as bytes. `nonce` is drawn with the session keys.
pub record Keys : Type 0 where
  pub static_sk : List ℕ
  pub static_pk : List ℕ
  pub remote_static_pk : List ℕ
  pub ephemeral_sk : List ℕ
  pub ephemeral_pk : List ℕ
  pub remote_ephemeral_pk : List ℕ
  pub rx : List ℕ
  pub tx : List ℕ
  pub nonce : List ℕ

-- The messages, with the connection ids as the sender sets them or as the receiver reads them. The
-- payload is all that stands behind the header.
pub data Message : Type 0 where
  data_msg : (fin : Bool) (src dst packet_number stream_id offset length : ℕ) → List ℕ → Message
  ack_msg : (src dst packet_number : ℕ) → List ℕ → Message
  dial_msg : (src dst : ℕ) → List ℕ → Message
  dialconf_msg : (src dst : ℕ) → List ℕ → Message
  conf_msg : (src dst : ℕ) → Message
  rst_msg : (src dst : ℕ) → Message
  skipstream_msg : (src dst stream_id offset : ℕ) → Message
  flushstream_msg : (src dst stream_id offset : ℕ) → Message
  flushconf_msg : (src dst stream_id : ℕ) → Message
  close_msg : (src dst reason : ℕ) → Message
  closeconf_msg : (src dst : ℕ) → Message

-- What a step does outside the transport: messages to the base transport, calls of the delegate, and
-- `fault`, which stands for an access through a dangling pointer or a past-the-end iterator.
pub data Effect : Type 0 where
  sends : Message → Effect
  closes : ℕ → Effect
  did_dial : Effect
  delivers : List ℕ → ℕ → Effect
  did_send : List ℕ → Effect
  did_close : ℕ → Effect
  did_recv_skip_stream : ℕ → Effect
  did_recv_flush_stream : (stream_id offset old_offset : ℕ) → Effect
  did_recv_flush_conf : ℕ → Effect
  erases_self : Effect
  fault : Effect

-- `out` holds the effects, the newest first. `rtt_samples` holds the measurements from which `rtt`, a
-- double, is folded, the newest first; with none of them `rtt` is -1.
pub record Transport : Type 0 where
  pub conn_state : ConnectionState
  pub src_conn_id : ℕ
  pub dst_conn_id : ℕ
  pub state_timer : Timer
  pub state_timer_interval : ℕ
  pub dialled : Bool
  pub send_streams : Dict SendStream
  pub recv_streams : Dict RecvStream
  pub last_sent_packet : ℕ
  pub sent_packets : Dict SentPacketInfo
  pub lost_packets : Dict SentPacketInfo
  pub rtt_samples : List ℕ
  pub bytes_in_flight : ℕ
  pub k : ℕ
  pub w_max : ℕ
  pub congestion_window : ℕ
  pub ssthresh : ℕ
  pub congestion_start : ℕ
  pub largest_acked : ℕ
  pub largest_sent_time : ℕ
  pub send_queue_ids : List ℕ
  pub send_queue : List ℕ
  pub pacing_timer : Timer
  pub is_pacing_timer_active : Bool
  pub tlp_timer : Timer
  pub tlp_interval : ℕ
  pub ack_ranges : AckRanges
  pub ack_timer : Timer
  pub ack_timer_active : Bool
  pub close_reason : ℕ
  pub keys : Keys
  pub out : List Effect

abbrev pub default_tlp_interval : ℕ
default_tlp_interval = 1000

abbrev pub default_pacing_limit : ℕ
default_pacing_limit = 400000

abbrev pub default_fragment_size : ℕ
default_fragment_size = 1350

-- (uint64_t)-1
abbrev pub max64 : ℕ
max64 = 2 ^ 64 - 1

-- The members' initial values; the rest is what the constructor and `setup` leave.
abbrev pub init : Keys → Transport
init keys = record {
  conn_state = listen;
  src_conn_id = 0;
  dst_conn_id = 0;
  state_timer = stopped;
  state_timer_interval = 0;
  dialled = false;
  send_streams = [];
  recv_streams = [];
  last_sent_packet = max64;
  sent_packets = [];
  lost_packets = [];
  rtt_samples = [];
  bytes_in_flight = 0;
  k = 0;
  w_max = 0;
  congestion_window = 100000;
  ssthresh = max64;
  congestion_start = 0;
  largest_acked = 0;
  largest_sent_time = 0;
  send_queue_ids = [];
  send_queue = [];
  pacing_timer = stopped;
  is_pacing_timer_active = false;
  tlp_timer = stopped;
  tlp_interval = default_tlp_interval;
  ack_ranges = AckRanges.empty;
  ack_timer = stopped;
  ack_timer_active = false;
  close_reason = 0;
  keys = keys;
  out = [];
}

-- `reset()`
unfoldable pub reset : Transport → Transport
reset t = record t {
  conn_state = listen;
  src_conn_id = 0;
  dst_conn_id = 0;
  dialled = false;
  state_timer = stopped;
  state_timer_interval = 0;
  send_streams = [];
  recv_streams = [];
  last_sent_packet = max64;
  sent_packets = [];
  lost_packets = [];
  rtt_samples = [];
  bytes_in_flight = 0;
  k = 0;
  w_max = 0;
  congestion_window = 100000;
  ssthresh = max64;
  congestion_start = 0;
  largest_acked = 0;
  largest_sent_time = 0;
  send_queue_ids = [];
  send_queue = [];
  pacing_timer = stopped;
  is_pacing_timer_active = false;
  tlp_timer = stopped;
  tlp_interval = default_tlp_interval;
  ack_ranges = AckRanges.empty;
  ack_timer = stopped;
  ack_timer_active = false;
}

abbrev pub emit : Effect → Transport → Transport
emit e t = record t { out = e ∷ t.out }

-- `crypto_box_seal` and its siblings of libsodium.
pub record Sodium : Type 0 where
  pub box_seal : List ℕ → List ℕ → List ℕ
  pub box_seal_open : List ℕ → List ℕ → List ℕ → Option (List ℕ)
  pub server_session_keys : List ℕ → List ℕ → List ℕ → Option (List ℕ × List ℕ)
  pub client_session_keys : List ℕ → List ℕ → List ℕ → Option (List ℕ × List ℕ)

-- The double arithmetic of the congestion control: `w *= 0.6`, `w *= 0.75`,
-- `std::cbrt(w / 16) * 1000` and `b < 0.8 * w`.
pub record Floats : Type 0 where
  pub scale_fast : ℕ → ℕ
  pub scale_slow : ℕ → ℕ
  pub cubic_k : ℕ → ℕ
  pub below_window : ℕ → ℕ → Bool

-- What a step takes from outside: the event loop's clock, a draw of `std::random_device` and one of
-- `randombytes_buf`, the 16 bytes of a packet that are left unset when packets are not encrypted, and
-- whether the delegate accepts the bytes that a stream delivers at a read offset.
pub record Env : Type 0 where
  pub now : ℕ
  pub random_id : ℕ
  pub random_nonce : List ℕ
  pub unset_tag : List ℕ
  pub accepts : (stream_id read_offset : ℕ) → List ℕ → Bool
  pub sodium : Sodium
  pub floats : Floats
