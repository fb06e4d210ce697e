-- ===== src/Stream/Close.antt =====
-- StreamTransport.hpp: how a connection is closed (CLOSE, CLOSECONF).
use open_weaver.Base.{ℕ, ◌*◌, leb, if◌then◌else◌}
use open_weaver.Stream.Types.{
  Transport, started, stopped, close_timer_cb, listen, established, closing, sends, did_close,
  erases_self, close_msg, closeconf_msg, emit, reset,
}
use open_weaver.Stream.Handshake.{ids_match, reset_and_close}

unfoldable pub send_close : ℕ → Transport → Transport
send_close reason t = emit (sends (close_msg t.src_conn_id t.dst_conn_id reason)) t

unfoldable pub send_closeconf : (src dst : ℕ) → Transport → Transport
send_closeconf src dst t = emit (sends (closeconf_msg src dst)) t

unfoldable pub close : ℕ → Transport → Transport
close reason t =
    let t1 = record (reset t) {
      src_conn_id = t.src_conn_id;
      dst_conn_id = t.dst_conn_id;
      conn_state = closing;
      close_reason = reason;
    } in
    record (send_close reason t1) {
      state_timer_interval = 1000;
      state_timer = started close_timer_cb 1000;
    }

unfoldable pub on_close_timer : Transport → Transport
on_close_timer t =
    let ms : ℕ = t.state_timer_interval * 2 in
    if leb 8000 t.state_timer_interval
    then reset_and_close 0 t
    else record (send_close t.close_reason t) {
      state_timer_interval = ms;
      state_timer = started close_timer_cb ms;
    }

unfoldable pub did_recv_close : (src dst reason : ℕ) → Transport → Transport
did_recv_close src dst reason t =
    let stale = send_closeconf src dst t in
    if ids_match src dst t
    then elim t.conn_state [
      | established ↦ reset_and_close reason (send_closeconf src dst t)
      | closing ↦ reset_and_close reason (send_closeconf src dst t)
      | listen ↦ reset_and_close 0 t
      | _ ↦ t
    ]
    else elim t.conn_state [ listen ↦ reset_and_close 0 stale | _ ↦ stale ]

unfoldable pub did_recv_closeconf : (src dst : ℕ) → Transport → Transport
did_recv_closeconf src dst t =
    let t1 = record t { state_timer = stopped } in
    if ids_match src dst t then reset_and_close 0 t1 else t1

-- `did_close` of the base transport.
unfoldable pub on_close : ℕ → Transport → Transport
on_close reason t = emit erases_self (emit (did_close reason) t)
