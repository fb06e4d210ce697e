-- ===== src/Stream/Conn/Machine.antt =====
-- The connection's state machine: which state can follow which.
use open_weaver.Base.{
  none, some, ℕ, ◌≡◌, refl, Bool, true, false, List, arith, Option, Option-cases, inl, inr, take,
  length, ◌-◌, ◌||◌,
}
use open_weaver.Stream.Types.{
  Transport, Env, ConnectionState, listen, dial_sent, dial_rcvd, established, closing, reset,
  RecvStream, new_recv_stream, Message, stopped, data_msg, emit, ack_msg, did_recv_skip_stream,
  dial_msg, Timer, dialconf_msg, conf_msg, rst_msg, skipstream_msg, flushstream_msg, flushconf_msg,
  close_msg, closeconf_msg, SendStream,
}
use open_weaver.Stream.Handshake.{
  did_recv_dial, did_recv_dialconf, did_recv_conf, did_recv_rst, send_dialconf, send_conf, send_rst,
  accept_dial, cross_dial, accept_dialconf, notify_dialled, reset_and_close, start_dial, send_dial,
  on_dial_timer,
}
use open_weaver.Stream.Receive.{
  recv_on_stream, deliver_now, queue_packet, note_packet, on_ack_timer, did_recv_data, send_ack,
  put_recv_stream, note_fin,
}
use open_weaver.Stream.Conn.{
  SameConn, send_pending_data, on_pacing_timer-SameConn, send_pending_data-SameConn, SendStream,
  send_bytes-SameConn,
}
use open_weaver.Dict.{try_emplace, lookup}
use open_weaver.Stream.Ack.{
  did_recv_ack, on_tlp_timer, note_largest, detect_lost, ack_all_ranges, sent_too_early,
}
use open_weaver.Stream.Skip.{
  flush_stream, skip_stream, did_recv_skipstream, did_recv_flushstream, did_recv_flushconf,
  get_or_create_recv_stream, get_or_create_send_stream, send_flushconf, send_flushstream,
  send_skipstream, on_skip_timer, on_flush_timer,
}
use open_weaver.Stream.Close.{
  did_recv_close, did_recv_closeconf, send_closeconf, on_close_timer, send_close, close, on_close,
}
use open_weaver.Stream.Step.{
  handle, did_recv, fire, fire_state, step, Event, datagram, dials, app_sends, app_skips,
  app_flushes, app_closes, base_closes, fires, Fires, state_timer, pacing_timer, tlp_timer,
  ack_timer, recv_stream_timer, send_stream_timer,
}
use open_weaver.Stream.Send.{send_pending_data}
use open_weaver.Stream.Conn.Acks.{
  detect_lost-SameConn, note_largest-SameConn, ack_all_ranges-SameConn,
}
use open_weaver.Stream.Wire.{decode}

-- What can move a connection: the message that comes in, the call, or the timer.
pub data Cause : Type 0 where
  dialling gets_dial gets_dialconf gets_conf gets_data gets_rst gets_close : Cause
  closing_call time_out nothing : Cause

-- What a message is to the connection.
abbrev pub cause_of_message : Message → Cause
cause_of_message (dial_msg src dst payload) = gets_dial
cause_of_message (dialconf_msg src dst payload) = gets_dialconf
cause_of_message (conf_msg src dst) = gets_conf
cause_of_message (data_msg fin src dst packet_number id offset len payload) = gets_data
cause_of_message (rst_msg src dst) = gets_rst
cause_of_message (close_msg src dst reason) = gets_close
cause_of_message (closeconf_msg src dst) = gets_close
cause_of_message _ = nothing

-- The timers that give up after some time: of the state, of the tail loss probe, and of a stream's skip or
-- flush.
abbrev pub cause_of_timer : Fires → Cause
cause_of_timer pacing_timer = nothing
cause_of_timer ack_timer = nothing
cause_of_timer _ = time_out

abbrev pub cause_of : Event → Cause
cause_of (datagram bytes) = elim (decode bytes) [ none ↦ nothing | some m ↦ cause_of_message m ]
cause_of (dials remote) = dialling
cause_of (app_closes reason) = closing_call
cause_of (fires f) = cause_of_timer f
cause_of _ = nothing

-- The states that may follow a state in one step, by what happens in it.
pub data Follows : Cause → ConnectionState → ConnectionState → Type 0 where
  stays : {k : Cause} {c : ConnectionState} → Follows k c c
  sends_dial : Follows dialling listen dial_sent
  accepts_dial : Follows gets_dial listen dial_rcvd
  crosses_dial : Follows gets_dial dial_sent dial_rcvd
  confirms_dial : Follows gets_dialconf dial_sent established
  confirms_cross : Follows gets_dialconf dial_rcvd established
  gets_confirmed : Follows gets_conf dial_rcvd established
  gets_first_data : Follows gets_data dial_rcvd established
  resets_on_rst : {c : ConnectionState} → Follows gets_rst c listen
  resets_on_close : {c : ConnectionState} → Follows gets_close c listen
  resets_on_time_out : {c : ConnectionState} → Follows time_out c listen
  closes : {c : ConnectionState} → Follows closing_call c closing

-- The same as a test.
abbrev moves : Cause → ConnectionState → ConnectionState → Bool
moves dialling listen dial_sent = true
moves gets_dial listen dial_rcvd = true
moves gets_dial dial_sent dial_rcvd = true
moves gets_dialconf dial_sent established = true
moves gets_dialconf dial_rcvd established = true
moves gets_conf dial_rcvd established = true
moves gets_data dial_rcvd established = true
moves gets_rst c listen = true
moves gets_close c listen = true
moves time_out c listen = true
moves closing_call c closing = true
moves _ _ _ = false

abbrev same : ConnectionState → ConnectionState → Bool
same listen listen = true
same dial_sent dial_sent = true
same dial_rcvd dial_rcvd = true
same established established = true
same closing closing = true
same _ _ = false

abbrev follows : Cause → ConnectionState → ConnectionState → Bool
follows k c d = same c d || moves k c d

follows_refl : (k : Cause) (c : ConnectionState) → follows k c c ≡ true
follows_refl k listen = refl
follows_refl k dial_sent = refl
follows_refl k dial_rcvd = refl
follows_refl k established = refl
follows_refl k closing = refl

abbrev Ok : Cause → Transport → Transport → Type 0
Ok k t u = follows k t.conn_state u.conn_state ≡ true

same-Ok : (k : Cause) {t u : Transport} → SameConn t u → Ok k t u
same-Ok k {t} s = rw (s.state) (follows_refl k t.conn_state)

did_recv_dial-Ok :
    (e : Env) (src dst : ℕ) (payload : List ℕ) (t : Transport)
    → Ok gets_dial t (did_recv_dial e src dst payload t)
unfolding did_recv_dial accept_dial cross_dial send_dialconf
did_recv_dial-Ok e src dst payload t = ground (arith, follows_refl gets_dial t.conn_state)

did_recv_dialconf-Ok :
    (e : Env) (src dst : ℕ) (payload : List ℕ) (t : Transport)
    → Ok gets_dialconf t (did_recv_dialconf e src dst payload t)
unfolding did_recv_dialconf accept_dialconf send_conf send_rst notify_dialled
did_recv_dialconf-Ok e src dst payload t = ground (arith, follows_refl gets_dialconf t.conn_state)

did_recv_conf-Ok : (src dst : ℕ) (t : Transport) → Ok gets_conf t (did_recv_conf src dst t)
unfolding did_recv_conf send_rst notify_dialled
did_recv_conf-Ok src dst t = ground (arith, follows_refl gets_conf t.conn_state)

-- What may reset a connection.
abbrev Resets : Cause → Type 0
Resets gets_rst = Unit
Resets gets_close = Unit
Resets time_out = Unit
Resets _ = ⊥

reset-Ok :
    (k : Cause) → Resets k → (reason : ℕ) (t u : Transport) → Ok k t (reset_and_close reason u)
unfolding reset_and_close reset
reset-Ok k r reason t u = ground arith

did_recv_rst-Ok : (src dst : ℕ) (t : Transport) → Ok gets_rst t (did_recv_rst src dst t)
unfolding did_recv_rst
did_recv_rst-Ok src dst t =
    ground (arith, follows_refl gets_rst t.conn_state, reset-Ok gets_rst tt 0 t t)

deliver_now-SameConn :
    (e : Env) (id offset len : ℕ) (bytes : List ℕ) (s : RecvStream) (t : Transport)
    → SameConn t (deliver_now e id offset len bytes s t)
unfolding deliver_now
deliver_now-SameConn e id offset len bytes s t = ground arith

queue_packet-SameConn :
    (e : Env) (id offset len : ℕ) (bytes : List ℕ) (s : RecvStream) (t : Transport)
    → SameConn t (queue_packet e id offset len bytes s t)
unfolding queue_packet
queue_packet-SameConn e id offset len bytes s t = ground arith

note_packet-SameConn : (n : ℕ) (t : Transport) → SameConn t (note_packet n t)
unfolding note_packet
note_packet-SameConn n t = ground arith

recv_on_stream-SameConn :
    (e : Env) (fin : Bool) (packet_number id offset len : ℕ) (payload : List ℕ) (t : Transport)
    → SameConn t (recv_on_stream e fin packet_number id offset len payload t)
unfolding recv_on_stream
recv_on_stream-SameConn e fin packet_number id offset len payload t =
    let s = elim (lookup id t.recv_streams) as (λ _. RecvStream) [
      | none ↦ new_recv_stream
      | some s ↦ s
    ] in
    let s1 = note_fin fin offset len s in
    let t1 =
      put_recv_stream id s1
        (record t { recv_streams = try_emplace id new_recv_stream t.recv_streams }) in
    let t2 = note_packet packet_number t1 in
    let p = take (length payload - 28) payload in
    ground (
      arith,
      note_packet-SameConn packet_number t1,
      deliver_now-SameConn e id offset len p s1 t2,
      queue_packet-SameConn e id offset len p s1 t2,
    )

did_recv_data-Ok :
    (e : Env) (fin : Bool) (src dst packet_number id offset len : ℕ) (payload : List ℕ)
    (t : Transport)
    → Ok gets_data t (did_recv_data e fin src dst packet_number id offset len payload t)
unfolding did_recv_data send_rst notify_dialled
did_recv_data-Ok e fin src dst packet_number id offset len payload t = ground (
  arith,
  follows_refl gets_data t.conn_state,
  recv_on_stream-SameConn e fin packet_number id offset len payload t,
  recv_on_stream-SameConn e fin packet_number id offset len payload
      (notify_dialled (record t { conn_state = established })),
)

did_recv_ack-Ok :
    (e : Env) (src dst largest : ℕ) (ranges : List ℕ) (t : Transport)
    → Ok nothing t (did_recv_ack e src dst largest ranges t)
unfolding did_recv_ack send_rst
did_recv_ack-Ok e src dst largest ranges t =
    let t1 = note_largest e largest t in
    let app_limited = e.floats.below_window t1.bytes_in_flight t1.congestion_window in
    let r = ack_all_ranges app_limited largest false ranges t1 in
    let test = sent_too_early r.0.largest_sent_time in
    ground (
      arith,
      follows_refl nothing t.conn_state,
      note_largest-SameConn e largest t,
      ack_all_ranges-SameConn app_limited largest false ranges t1,
      detect_lost-SameConn e test r.0,
      send_pending_data-SameConn (detect_lost e test r.0),
    )

on_tlp_timer-Ok : (e : Env) (t : Transport) → Ok time_out t (on_tlp_timer e t)
unfolding on_tlp_timer
on_tlp_timer-Ok e t =
    let t1 = send_pending_data (detect_lost e (λ _. true) t) in
    ground (
      arith,
      follows_refl time_out t.conn_state,
      detect_lost-SameConn e (λ _. true) t,
      send_pending_data-SameConn (detect_lost e (λ _. true) t),
      reset-Ok time_out tt 0 t t1,
    )

flush_stream-SameConn : (id : ℕ) (t : Transport) → SameConn t (flush_stream id t)
unfolding flush_stream get_or_create_send_stream send_flushstream
flush_stream-SameConn id t = ground arith

skip_stream-SameConn : (id : ℕ) (t : Transport) → SameConn t (skip_stream id t)
unfolding skip_stream get_or_create_recv_stream send_skipstream
skip_stream-SameConn id t = ground arith

did_recv_skipstream-SameConn :
    (src dst id offset : ℕ) (t : Transport) → SameConn t (did_recv_skipstream src dst id offset t)
unfolding did_recv_skipstream get_or_create_send_stream send_flushstream send_rst
did_recv_skipstream-SameConn src dst id offset t = ground (
  arith,
  flush_stream-SameConn id (emit (did_recv_skip_stream id) (get_or_create_send_stream id t).1),
)

did_recv_flushstream-SameConn :
    (src dst id offset : ℕ) (t : Transport) → SameConn t (did_recv_flushstream src dst id offset t)
unfolding did_recv_flushstream get_or_create_recv_stream send_flushconf send_rst
did_recv_flushstream-SameConn src dst id offset t = ground arith

did_recv_flushconf-SameConn :
    (src dst id : ℕ) (t : Transport) → SameConn t (did_recv_flushconf src dst id t)
unfolding did_recv_flushconf get_or_create_send_stream send_rst
did_recv_flushconf-SameConn src dst id t = ground arith

did_recv_close-Ok :
    (src dst reason : ℕ) (t : Transport) → Ok gets_close t (did_recv_close src dst reason t)
unfolding did_recv_close send_closeconf
did_recv_close-Ok src dst reason t = ground (
  arith,
  follows_refl gets_close t.conn_state,
  reset-Ok gets_close tt 0 t t,
  reset-Ok gets_close tt 0 t (send_closeconf src dst t),
  reset-Ok gets_close tt reason t (send_closeconf src dst t),
)

did_recv_closeconf-Ok :
    (src dst : ℕ) (t : Transport) → Ok gets_close t (did_recv_closeconf src dst t)
unfolding did_recv_closeconf
did_recv_closeconf-Ok src dst t = ground (
  arith,
  follows_refl gets_close t.conn_state,
  reset-Ok gets_close tt 0 t (record t { state_timer = stopped }),
)

handle-Ok : (e : Env) (m : Message) (t : Transport) → Ok (cause_of_message m) t (handle e m t)
unfolding handle
handle-Ok e (data_msg fin src dst packet_number id offset len payload) t =
    did_recv_data-Ok e fin src dst packet_number id offset len payload t
handle-Ok e (ack_msg src dst packet_number ranges) t =
    did_recv_ack-Ok e src dst packet_number ranges t
handle-Ok e (dial_msg src dst payload) t = did_recv_dial-Ok e src dst payload t
handle-Ok e (dialconf_msg src dst payload) t = did_recv_dialconf-Ok e src dst payload t
handle-Ok e (conf_msg src dst) t = did_recv_conf-Ok src dst t
handle-Ok e (rst_msg src dst) t = did_recv_rst-Ok src dst t
handle-Ok e (skipstream_msg src dst id offset) t =
    same-Ok nothing (did_recv_skipstream-SameConn src dst id offset t)
handle-Ok e (flushstream_msg src dst id offset) t =
    same-Ok nothing (did_recv_flushstream-SameConn src dst id offset t)
handle-Ok e (flushconf_msg src dst id) t =
    same-Ok nothing (did_recv_flushconf-SameConn src dst id t)
handle-Ok e (close_msg src dst reason) t = did_recv_close-Ok src dst reason t
handle-Ok e (closeconf_msg src dst) t = did_recv_closeconf-Ok src dst t

did_recv-Ok :
    (e : Env) (bytes : List ℕ) (t : Transport)
    → Ok (cause_of (datagram bytes)) t (did_recv e bytes t)
unfolding did_recv
did_recv-Ok e bytes t = elim (Option-cases (decode bytes)) [
  | inl n ↦ rw (did_recv, cause_of, n) (follows_refl nothing t.conn_state)
  | inr (m, d) ↦ rw (did_recv, cause_of, d) (handle-Ok e m t)
]

start_dial-Ok :
    (e : Env) (remote : Option (List ℕ)) (t : Transport) → Ok dialling t (start_dial e remote t)
unfolding start_dial send_dial
start_dial-Ok e remote t = ground (arith, follows_refl dialling t.conn_state)

fire_state-Ok : (e : Env) (timer : Timer) (t : Transport) → Ok time_out t (fire_state e timer t)
unfolding fire_state on_dial_timer on_close_timer send_dial send_close
fire_state-Ok e timer t = ground (
  arith,
  follows_refl time_out t.conn_state,
  reset-Ok time_out tt 0 t t,
  reset-Ok time_out tt 0 t (record t { state_timer_interval = 0 }),
)

on_ack_timer-SameConn : (t : Transport) → SameConn t (on_ack_timer t)
unfolding on_ack_timer send_ack
on_ack_timer-SameConn t = ground arith

on_skip_timer-Ok : (id : ℕ) (s : RecvStream) (t : Transport) → Ok time_out t (on_skip_timer id s t)
unfolding on_skip_timer send_skipstream
on_skip_timer-Ok id s t =
    ground (arith, follows_refl time_out t.conn_state, reset-Ok time_out tt 0 t t)

on_flush_timer-Ok :
    (id : ℕ) (s : SendStream) (t : Transport) → Ok time_out t (on_flush_timer id s t)
unfolding on_flush_timer send_flushstream
on_flush_timer-Ok id s t =
    ground (arith, follows_refl time_out t.conn_state, reset-Ok time_out tt 0 t t)

fire-Ok : (e : Env) (f : Fires) (t : Transport) → Ok (cause_of_timer f) t (fire e f t)
unfolding fire
fire-Ok e state_timer t = fire_state-Ok e t.state_timer (record t { state_timer = stopped })
fire-Ok e pacing_timer t = ground (
  arith,
  follows_refl nothing t.conn_state,
  on_pacing_timer-SameConn e (record t { pacing_timer = stopped }),
)
fire-Ok e tlp_timer t = ground (
  arith,
  follows_refl time_out t.conn_state,
  on_tlp_timer-Ok e (record t { tlp_timer = stopped }),
)
fire-Ok e ack_timer t = ground (
  arith,
  follows_refl nothing t.conn_state,
  on_ack_timer-SameConn (record t { ack_timer = stopped }),
)
fire-Ok e (recv_stream_timer id) t = elim (Option-cases (lookup id t.recv_streams)) [
  | inl n ↦ rw (n, fire) (follows_refl time_out t.conn_state)
  | inr (s, r) ↦
      rw (r, fire) (ground (arith, follows_refl time_out t.conn_state, on_skip_timer-Ok id s t))
]
fire-Ok e (send_stream_timer id) t = elim (Option-cases (lookup id t.send_streams)) [
  | inl n ↦ rw (n, fire) (follows_refl time_out t.conn_state)
  | inr (s, r) ↦
      rw (r, fire) (ground (arith, follows_refl time_out t.conn_state, on_flush_timer-Ok id s t))
]

step-Ok : (e : Env) (ev : Event) (t : Transport) → Ok (cause_of ev) t (step e ev t)
unfolding step close send_close reset on_close
step-Ok e (datagram bytes) t = did_recv-Ok e bytes t
step-Ok e (dials remote) t = start_dial-Ok e remote t
step-Ok e (app_sends id bytes) t = same-Ok nothing (send_bytes-SameConn id bytes t)
step-Ok e (app_skips id) t = same-Ok nothing (skip_stream-SameConn id t)
step-Ok e (app_flushes id) t = same-Ok nothing (flush_stream-SameConn id t)
step-Ok e (app_closes reason) t = ground (arith)
step-Ok e (base_closes reason) t = follows_refl nothing t.conn_state
step-Ok e (fires f) t = fire-Ok e f t

moves_sound : (k : Cause) (c d : ConnectionState) → moves k c d ≡ true → Follows k c d
moves_sound dialling listen dial_sent h = sends_dial
moves_sound gets_dial listen dial_rcvd h = accepts_dial
moves_sound gets_dial dial_sent dial_rcvd h = crosses_dial
moves_sound gets_dialconf dial_sent established h = confirms_dial
moves_sound gets_dialconf dial_rcvd established h = confirms_cross
moves_sound gets_conf dial_rcvd established h = gets_confirmed
moves_sound gets_data dial_rcvd established h = gets_first_data
moves_sound gets_rst c listen h = resets_on_rst
moves_sound gets_close c listen h = resets_on_close
moves_sound time_out c listen h = resets_on_time_out
moves_sound closing_call c closing h = closes
moves_sound _ _ _ h = cc

follows_sound : (k : Cause) (c d : ConnectionState) → follows k c d ≡ true → Follows k c d
follows_sound k listen listen h = stays
follows_sound k dial_sent dial_sent h = stays
follows_sound k dial_rcvd dial_rcvd h = stays
follows_sound k established established h = stays
follows_sound k closing closing h = stays
follows_sound k c d h = moves_sound k c d (ground (arith, h))

-- Whatever happens to a transport, its connection state stays or moves for one of these reasons: it goes
-- from Listen to DialSent by a call of `dial`; from Listen or DialSent to DialRcvd by a DIAL; from
-- DialSent or DialRcvd to Established by a DIALCONF; from DialRcvd to Established by a CONF or by DATA;
-- to Closing by a call of `close`; and back to Listen by an RST, by a CLOSE or CLOSECONF, or by a timer
-- of the state, of the tail loss probe, or of a stream's skip or flush. So a step leads to Established
-- only from DialSent or DialRcvd, to these only by a call of `dial` or a DIAL, and from Established or
-- Closing never into the handshake.
pub step-Follows :
    (e : Env) (ev : Event) (t : Transport)
    → Follows (cause_of ev) t.conn_state (step e ev t).conn_state
step-Follows e ev t = follows_sound _ _ _ (step-Ok e ev t)
