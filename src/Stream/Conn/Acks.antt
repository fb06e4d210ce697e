-- ===== src/Stream/Conn/Acks.antt =====
-- An acknowledgement and the tail loss probe leave the connection alone, unless the probe gives up.
use open_weaver.Base.{
  ℕ, inl, inr, Bool, true, false, Option, none, some, List, [], ◌∷◌, arith, Bool-cases,
  Option-cases, add64, sub64,
}
use open_weaver.Dict.{Dict, erase}
use open_weaver.Stream.Types.{
  Transport, SendStream, DataItem, SentPacketInfo, Env, emit, max64, did_send, fault,
}
use open_weaver.Stream.Send.{resolve}
use open_weaver.Stream.Ack.{
  ack_packet, ack_packets, ack_range, ack_all_ranges, hand_back, grow_window, ack_stream,
  note_largest, mark_lost, scan_lost, detect_lost, congestion_event, between, erase_send_stream,
}
use open_weaver.Stream.Conn.{SameConn, SameConn-refl, SameConn-trans}

hand_back-SameConn : (bs : List (List ℕ)) (t : Transport) → SameConn t (hand_back bs t)
unfolding hand_back
hand_back-SameConn [] t = SameConn-refl t
hand_back-SameConn (b ∷ bs) t = ground (arith, hand_back-SameConn bs (emit (did_send b) t))

ack_packet-SameConn :
    (app_limited : Bool) (p : SentPacketInfo) (q : SendStream × DataItem) (t : Transport)
    → SameConn t (ack_packet app_limited p q t).0
unfolding ack_packet grow_window erase_send_stream
ack_packet-SameConn app_limited p (s, item) t =
    let r = ack_stream (add64 item.stream_offset p.offset) p.length s in
    ground (arith, hand_back-SameConn r.1 t, hand_back-SameConn r.1 (emit fault t))

ack_packets-SameConn :
    (app_limited : Bool) (l : Dict SentPacketInfo) (t : Transport)
    → SameConn t (ack_packets app_limited l t).0
unfolding ack_packets
ack_packets-SameConn app_limited [] t = SameConn-refl t
ack_packets-SameConn app_limited ((key, p) ∷ rest) t = elim (Option-cases (resolve p t)) [
  | inl r ↦ rw (r, ack_packets) (ground arith)
  | inr (q, r) ↦
      rw (r, ack_packets)
        (let a = ack_packet app_limited p q t in
          ground (
            arith,
            ack_packet-SameConn app_limited p q t,
            ack_packets-SameConn app_limited rest
                (record a.0 { sent_packets = erase key a.0.sent_packets }),
          ))
]

ack_range-SameConn :
    (app_limited : Bool) (low high : ℕ) (t : Transport)
    → SameConn t (ack_range app_limited low high t).0
unfolding ack_range
ack_range-SameConn app_limited low high t = ground (
  arith,
  ack_packets-SameConn app_limited (between (add64 low 1) max64 t.sent_packets) t,
  ack_packets-SameConn app_limited (between (add64 low 1) high t.sent_packets) t,
)

pub ack_all_ranges-SameConn :
    (app_limited : Bool) (high : ℕ) (gap : Bool) (rs : List ℕ) (t : Transport)
    → SameConn t (ack_all_ranges app_limited high gap rs t).0
unfolding ack_all_ranges
ack_all_ranges-SameConn app_limited high gap [] t = SameConn-refl t
ack_all_ranges-SameConn app_limited high true (r ∷ rs) t =
    ack_all_ranges-SameConn app_limited (sub64 high r) false rs t
ack_all_ranges-SameConn app_limited high false (r ∷ rs) t =
    let a = ack_range app_limited (sub64 high r) high t in
    ground (
      arith,
      ack_range-SameConn app_limited (sub64 high r) high t,
      ack_all_ranges-SameConn app_limited (sub64 high r) true rs a.0,
    )

pub note_largest-SameConn :
    (e : Env) (largest : ℕ) (t : Transport) → SameConn t (note_largest e largest t)
unfolding note_largest
note_largest-SameConn e largest t = ground arith

mark_lost-SameConn : (key : ℕ) (p : SentPacketInfo) (t : Transport) → SameConn t (mark_lost key p t)
unfolding mark_lost
mark_lost-SameConn key p t = ground arith

scan_lost-SameConn :
    (test : ℕ → Bool) (last : Option ℕ) (l : Dict SentPacketInfo) (t : Transport)
    → SameConn t (scan_lost test last l t).transport
unfolding scan_lost
scan_lost-SameConn test last [] t = SameConn-refl t
scan_lost-SameConn test last ((key, p) ∷ rest) t = elim (Bool-cases (test p.sent_time)) [
  | inl y ↦ rw (y) (
      SameConn-trans (mark_lost-SameConn key p t)
        (scan_lost-SameConn test (some p.sent_time) rest (mark_lost key p t)))
  | inr n ↦ rw (n) (SameConn-refl t)
]

pub detect_lost-SameConn :
    (e : Env) (test : ℕ → Bool) (t : Transport) → SameConn t (detect_lost e test t)
unfolding detect_lost congestion_event
detect_lost-SameConn e test t = ground (arith, scan_lost-SameConn test none t.sent_packets t)
