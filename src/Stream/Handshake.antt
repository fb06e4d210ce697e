-- ===== src/Stream/Handshake.antt =====
-- StreamTransport.hpp: how a connection is set up (DIAL, DIALCONF, CONF) and refused (RST).
use open_weaver.Base.{
  ℕ, ◌+◌, ◌*◌, Bool, true, false, ◌&&◌, Option, none, some, List, [], ◌∷◌, ◌++◌, ltb, leb, ◌==◌,
  if◌then◌else◌, length, take, drop,
}
use open_weaver.Stream.Types.{
  Transport, stopped, started, dial_timer_cb, listen, dial_sent, dial_rcvd, established, closing,
  Keys, dial_msg, dialconf_msg, conf_msg, rst_msg, sends, closes, did_dial, Env, emit, reset,
}

-- libsodium's sizes of a box public key, a key-exchange public key and a seal.
abbrev pub public_key_bytes : ℕ
public_key_bytes = 32

abbrev pub seal_bytes : ℕ
seal_bytes = 48

-- memcmp(a, b, n) > 0 on arrays of one length.
abbrev pub bytes_gt : List ℕ → List ℕ → Bool
bytes_gt [] ys = false
bytes_gt (x ∷ xs) [] = true
bytes_gt (x ∷ xs) (y ∷ ys) = if x == y then bytes_gt xs ys else ltb y x

-- `reset(); transport.close(reason)`
unfoldable pub reset_and_close : ℕ → Transport → Transport
reset_and_close reason t = emit (closes reason) (reset t)

unfoldable pub send_dial : Env → Transport → Transport
send_dial e t =
    emit
      (sends (
        dial_msg t.src_conn_id t.dst_conn_id
          (e.sodium.box_seal (t.keys.static_pk ++ t.keys.ephemeral_pk) t.keys.remote_static_pk)))
      t

unfoldable pub send_dialconf : Env → Transport → Transport
send_dialconf e t =
    emit
      (sends (
        dialconf_msg t.src_conn_id t.dst_conn_id
          (e.sodium.box_seal t.keys.ephemeral_pk t.keys.remote_static_pk)))
      t

unfoldable pub send_conf : Transport → Transport
send_conf t = emit (sends (conf_msg t.src_conn_id t.dst_conn_id)) t

unfoldable pub send_rst : ℕ → ℕ → Transport → Transport
send_rst src dst t = emit (sends (rst_msg src dst)) t

-- The session keys from the ephemeral keys; the side with the greater key plays the server.
unfoldable pub derive_keys : Env → Keys → Option Keys
derive_keys e keys =
    let kdf =
      if bytes_gt keys.ephemeral_pk keys.remote_ephemeral_pk
      then e.sodium.server_session_keys
      else e.sodium.client_session_keys in
    elim (kdf keys.ephemeral_pk keys.ephemeral_sk keys.remote_ephemeral_pk) [
      | none ↦ none
      | some (rx, tx) ↦ some (record keys { rx = rx; tx = tx; nonce = e.random_nonce })
    ]

-- The remaining steps of DIAL in the state Listen, once the payload is open.
unfoldable pub accept_dial : Env → ℕ → List ℕ → Transport → Transport
accept_dial e dst pt t =
    let keys = record t.keys {
      remote_static_pk = take public_key_bytes pt;
      remote_ephemeral_pk = take public_key_bytes (drop public_key_bytes pt);
    } in
    elim (derive_keys e keys) [
      | none ↦ record t { keys = keys }
      | some derived ↦
          record (send_dialconf e
            (record t { keys = derived; dst_conn_id = dst; src_conn_id = e.random_id })) {
              conn_state = dial_rcvd;
            }
    ]

-- The same in the state DialSent: both sides dial at once, and the own connection id stays.
unfoldable pub cross_dial : Env → ℕ → List ℕ → Transport → Transport
cross_dial e dst pt t =
    let keys = record t.keys {
      remote_ephemeral_pk = take public_key_bytes (drop public_key_bytes pt);
    } in
    elim (derive_keys e keys) [
      | none ↦ record t { keys = keys }
      | some derived ↦
          record (send_dialconf e (record t {
            keys = derived;
            dst_conn_id = dst;
            state_timer = stopped;
            state_timer_interval = 0;
          })) { conn_state = dial_rcvd }
    ]

unfoldable pub did_recv_dial : Env → (src dst : ℕ) → List ℕ → Transport → Transport
did_recv_dial e src dst payload t =
    if ltb (length payload) (public_key_bytes + public_key_bytes + seal_bytes)
    then t
    else (let pt =
          e.sodium.box_seal_open (take (public_key_bytes + public_key_bytes + seal_bytes) payload)
            t.keys.static_pk t.keys.static_sk in
        elim t.conn_state [
          | listen ↦ if src == 0 then elim pt [ none ↦ t | some p ↦ accept_dial e dst p t ] else t
          | dial_sent ↦ if src == 0 then elim pt [ none ↦ t | some p ↦ cross_dial e dst p t ] else t
          | dial_rcvd ↦ send_dialconf e t
          | established ↦ send_dialconf e t
          | closing ↦ t
        ])

-- `if(dialled) delegate->did_dial(*this)`
unfoldable pub notify_dialled : Transport → Transport
notify_dialled t = if t.dialled then emit did_dial t else t

-- The connection ids that a message carries are the own ones.
abbrev pub ids_match : (src dst : ℕ) → Transport → Bool
ids_match src dst t = src == t.src_conn_id && dst == t.dst_conn_id

-- DIALCONF in the state DialSent, once the payload is open.
unfoldable pub accept_dialconf : Env → ℕ → List ℕ → Transport → Transport
accept_dialconf e dst pt t =
    let keys = record t.keys { remote_ephemeral_pk = pt } in
    elim (derive_keys e keys) [
      | none ↦ record t { keys = keys }
      | some derived ↦
          notify_dialled
            (record (send_conf (record t {
              keys = derived;
              state_timer = stopped;
              state_timer_interval = 0;
              dst_conn_id = dst;
            })) { conn_state = established })
    ]

unfoldable pub did_recv_dialconf : Env → (src dst : ℕ) → List ℕ → Transport → Transport
did_recv_dialconf e src dst payload t =
    if ltb (length payload) (public_key_bytes + seal_bytes) then t else elim t.conn_state [
      | dial_sent ↦
          if src == t.src_conn_id
          then elim (e.sodium.box_seal_open (take (public_key_bytes + seal_bytes) payload)
              t.keys.static_pk t.keys.static_sk) [ none ↦ t | some pt ↦ accept_dialconf e dst pt t ]
          else send_rst src dst t
      | dial_rcvd ↦
          if ids_match src dst t
          then notify_dialled
              (record (send_conf (record t { state_timer = stopped; state_timer_interval = 0 })) {
                conn_state = established;
              })
          else send_rst src dst t
      | established ↦ if ids_match src dst t then send_conf t else send_rst src dst t
      | listen ↦ send_rst src dst t
      | closing ↦ t
    ]

unfoldable pub did_recv_conf : (src dst : ℕ) → Transport → Transport
did_recv_conf src dst t = elim t.conn_state [
  | dial_rcvd ↦
      if ids_match src dst t
      then notify_dialled (record t { conn_state = established })
      else send_rst src dst t
  | established ↦ if ids_match src dst t then t else send_rst src dst t
  | listen ↦ send_rst src dst t
  | dial_sent ↦ send_rst src dst t
  | closing ↦ t
]

unfoldable pub did_recv_rst : (src dst : ℕ) → Transport → Transport
did_recv_rst src dst t =
    if ids_match src dst t
    then reset_and_close 0 t
    else elim t.conn_state [ listen ↦ reset_and_close 0 t | _ ↦ t ]

-- `did_dial` of the base transport: `none` is a null key.
unfoldable pub start_dial : Env → Option (List ℕ) → Transport → Transport
start_dial e remote t = elim t.conn_state [
  | listen ↦
      let keys : Keys = elim remote [
        | none ↦ t.keys
        | some pk ↦ record t.keys { remote_static_pk = pk }
      ] in
      record (send_dial e (record t {
        keys = keys;
        dialled = true;
        state_timer_interval = 1000;
        state_timer = started dial_timer_cb 1000;
        src_conn_id = e.random_id;
      })) { conn_state = dial_sent }
  | _ ↦ t
]

unfoldable pub on_dial_timer : Env → Transport → Transport
on_dial_timer e t =
    if leb 64000 t.state_timer_interval
    then reset_and_close 0 (record t { state_timer_interval = 0 })
    else (let t' = send_dial e t in
        let ms : ℕ = t'.state_timer_interval * 2 in
        record t' { state_timer_interval = ms; state_timer = started dial_timer_cb ms })
