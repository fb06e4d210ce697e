-- ===== src/Stream/Conn.antt =====
-- Sending, acknowledging and receiving data leave the connection alone.
pub mod Acks
pub mod Machine
use open_weaver.Base.{
  ℕ, zero, suc, ◌+◌, ◌≡◌, refl, inl, inr, false, List, [], ◌∷◌, ◌++◌, arith, Option-cases, length,
  take, drop,
}
use open_weaver.Dict.{Dict, lookup}
use open_weaver.Stream.Types.{Transport, SendStream, DataItem, SentPacketInfo, Env}
use open_weaver.Stream.Send.{
  send_lost, send_lost_data, send_data, send_fragment, send_fragments, put_send_stream, remove_id,
  send_items, send_new_data, pace, on_pacing_timer, resend, resolve, send_bytes, send_on_stream,
  send_pending_data, register_send_intent,
}

pub record SameConn (t u : Transport) : Type 0 where
  pub state : u.conn_state ≡ t.conn_state
  pub src : u.src_conn_id ≡ t.src_conn_id
  pub dst : u.dst_conn_id ≡ t.dst_conn_id
  pub dialled : u.dialled ≡ t.dialled

pub SameConn-refl : (t : Transport) → SameConn t t
SameConn-refl t = record { state = refl; src = refl; dst = refl; dialled = refl }

pub SameConn-trans : {t u v : Transport} → SameConn t u → SameConn u v → SameConn t v
SameConn-trans a b = ground arith

resend-SameConn :
    (e : Env) (p : SentPacketInfo) (q : SendStream × DataItem) (t : Transport)
    → SameConn t (resend e p q t)
unfolding resend send_data
resend-SameConn e p q t = ground arith

send_lost-SameConn :
    (e : Env) (initial : ℕ) (l : Dict SentPacketInfo) (t : Transport)
    → SameConn t (send_lost e initial l t).0
unfolding send_lost
send_lost-SameConn e initial [] t = SameConn-refl t
send_lost-SameConn e initial ((key, p) ∷ rest) t = elim (Option-cases (resolve p t)) [
  | inl r ↦ rw (r, send_lost) (ground arith)
  | inr (q, r) ↦
      rw (r, send_lost)
        (ground (
          arith,
          resend-SameConn e p q t,
          send_lost-SameConn e initial rest (record (resend e p q t) { lost_packets = rest }),
        ))
]

send_fragment-SameConn :
    (e : Env) (id i : ℕ) (s : SendStream) (item : DataItem) (t : Transport)
    → SameConn t (send_fragment e id i s item t).transport
unfolding send_fragment send_data
send_fragment-SameConn e id i s item t = ground arith

send_fragments-SameConn :
    (fuel : ℕ) (e : Env) (id initial i : ℕ) (s : SendStream) (item : DataItem) (t : Transport)
    → SameConn t (send_fragments fuel e id initial i s item t).transport
unfolding send_fragments
send_fragments-SameConn zero e id initial i s item t = SameConn-refl t
send_fragments-SameConn (suc fuel) e id initial i s item t =
    let r = send_fragment e id i s item t in
    ground (
      arith,
      send_fragment-SameConn e id i s item t,
      send_fragments-SameConn fuel e id initial (i + 1350) r.stream r.item r.transport,
    )

send_items-SameConn :
    (e : Env) (id initial : ℕ) (before items : List DataItem) (s : SendStream) (t : Transport)
    → SameConn t (send_items e id initial before items s t).1
unfolding send_items
send_items-SameConn e id initial before [] s t = SameConn-refl t
send_items-SameConn e id initial before (item ∷ items) s t =
    let r = send_fragments (suc (length item.bytes)) e id initial item.sent_offset s item t in
    ground (
      arith,
      send_fragments-SameConn (suc (length item.bytes)) e id initial item.sent_offset s item t,
      send_items-SameConn e id initial (before ++ r.item ∷ []) items r.stream r.transport,
    )

pace-SameConn :
    (e : Env) (initial : ℕ) (ids : List ℕ) (t : Transport) → SameConn t (pace e initial ids t)
unfolding pace send_new_data
pace-SameConn e initial [] t = SameConn-refl t
pace-SameConn e initial (id ∷ ids) t = elim (Option-cases (lookup id t.send_streams)) [
  | inl r ↦ rw (r, pace) (ground arith)
  | inr (s, r) ↦
      rw (r, pace)
        (let n = send_new_data e id initial s t in
          ground (
            arith,
            send_items-SameConn e id initial (take s.next_item s.data_queue)
                (drop s.next_item s.data_queue) s t,
            pace-SameConn e initial ids (record (put_send_stream id n.0 n.1) {
              send_queue_ids = remove_id id n.1.send_queue_ids;
              send_queue = ids;
            }),
          ))
]

pub on_pacing_timer-SameConn : (e : Env) (t : Transport) → SameConn t (on_pacing_timer e t)
unfolding on_pacing_timer send_lost_data
on_pacing_timer-SameConn e t =
    let t0 = record t { is_pacing_timer_active = false } in
    let r = send_lost_data e t0.bytes_in_flight t0 in
    ground (
      arith,
      send_lost-SameConn e t.bytes_in_flight t.lost_packets t0,
      pace-SameConn e t.bytes_in_flight r.0.send_queue r.0,
    )

pub send_pending_data-SameConn : (t : Transport) → SameConn t (send_pending_data t)
unfolding send_pending_data
send_pending_data-SameConn t = ground arith

pub send_bytes-SameConn :
    (id : ℕ) (bytes : List ℕ) (t : Transport) → SameConn t (send_bytes id bytes t).0
unfolding send_bytes send_on_stream register_send_intent send_pending_data
send_bytes-SameConn id bytes t = ground arith
