-- ===== src/Stream/Step.antt =====
-- StreamTransport.hpp: the entry points of a transport: a datagram, the calls of the application, and the
-- timers, which fire once.
use open_weaver.Base.{ℕ, Bool, true, false, Option, none, some, List, if◌then◌else◌}
use open_weaver.Dict.{lookup}
use open_weaver.Stream.Types.{
  Transport, Timer, stopped, started, dial_timer_cb, close_timer_cb, Message, data_msg, ack_msg,
  dial_msg, dialconf_msg, conf_msg, rst_msg, skipstream_msg, flushstream_msg, flushconf_msg,
  close_msg, closeconf_msg, Env,
}
use open_weaver.Stream.Handshake.{
  did_recv_dial, did_recv_dialconf, did_recv_conf, did_recv_rst, start_dial, on_dial_timer,
}
use open_weaver.Stream.Receive.{did_recv_data, on_ack_timer}
use open_weaver.Stream.Send.{send_bytes, on_pacing_timer}
use open_weaver.Stream.Ack.{did_recv_ack, on_tlp_timer}
use open_weaver.Stream.Skip.{
  did_recv_skipstream, did_recv_flushstream, did_recv_flushconf, skip_stream, flush_stream,
  on_skip_timer, on_flush_timer,
}
use open_weaver.Stream.Close.{did_recv_close, did_recv_closeconf, close, on_close_timer, on_close}
use open_weaver.Stream.Wire.{decode}

-- The handler of each message. The switch of `did_recv` has no case for the last two.
unfoldable pub handle : Env → Message → Transport → Transport
handle e (data_msg fin src dst packet_number id offset len payload) t =
    did_recv_data e fin src dst packet_number id offset len payload t
handle e (ack_msg src dst packet_number ranges) t = did_recv_ack e src dst packet_number ranges t
handle e (dial_msg src dst payload) t = did_recv_dial e src dst payload t
handle e (dialconf_msg src dst payload) t = did_recv_dialconf e src dst payload t
handle e (conf_msg src dst) t = did_recv_conf src dst t
handle e (rst_msg src dst) t = did_recv_rst src dst t
handle e (skipstream_msg src dst id offset) t = did_recv_skipstream src dst id offset t
handle e (flushstream_msg src dst id offset) t = did_recv_flushstream src dst id offset t
handle e (flushconf_msg src dst id) t = did_recv_flushconf src dst id t
handle e (close_msg src dst reason) t = did_recv_close src dst reason t
handle e (closeconf_msg src dst) t = did_recv_closeconf src dst t

unfoldable pub did_recv : Env → List ℕ → Transport → Transport
did_recv e bytes t = elim (decode bytes) [ none ↦ t | some m ↦ handle e m t ]

-- The timers: of the connection, and of one stream.
pub data Fires : Type 0 where
  state_timer pacing_timer tlp_timer ack_timer : Fires
  recv_stream_timer send_stream_timer : ℕ → Fires

-- The callback that `state_timer` was started with.
unfoldable pub fire_state : Env → Timer → Transport → Transport
fire_state e (started dial_timer_cb ms) t = on_dial_timer e t
fire_state e (started close_timer_cb ms) t = on_close_timer t
fire_state e _ t = t

unfoldable pub is_started : Timer → Bool
is_started stopped = false
is_started (started c ms) = true

-- A timer fires only while it is started, and is stopped from then on until it is started again.
unfoldable pub fire : Env → Fires → Transport → Transport
fire e state_timer t = fire_state e t.state_timer (record t { state_timer = stopped })
fire e pacing_timer t =
    if is_started t.pacing_timer then on_pacing_timer e (record t { pacing_timer = stopped }) else t
fire e tlp_timer t =
    if is_started t.tlp_timer then on_tlp_timer e (record t { tlp_timer = stopped }) else t
fire e ack_timer t =
    if is_started t.ack_timer then on_ack_timer (record t { ack_timer = stopped }) else t
fire e (recv_stream_timer id) t = elim (lookup id t.recv_streams) [
  | none ↦ t
  | some s ↦ if is_started s.state_timer then on_skip_timer id s t else t
]
fire e (send_stream_timer id) t = elim (lookup id t.send_streams) [
  | none ↦ t
  | some s ↦ if is_started s.state_timer then on_flush_timer id s t else t
]

-- What happens to a transport, one thing at a time.
pub data Event : Type 0 where
  datagram : List ℕ → Event
  dials : Option (List ℕ) → Event
  app_sends : ℕ → List ℕ → Event
  app_skips app_flushes app_closes base_closes : ℕ → Event
  fires : Fires → Event

unfoldable pub step : Env → Event → Transport → Transport
step e (datagram bytes) t = did_recv e bytes t
step e (dials remote) t = start_dial e remote t
step e (app_sends id bytes) t = (send_bytes id bytes t).0
step e (app_skips id) t = skip_stream id t
step e (app_flushes id) t = flush_stream id t
step e (app_closes reason) t = close reason t
step e (base_closes reason) t = on_close reason t
step e (fires f) t = fire e f t
