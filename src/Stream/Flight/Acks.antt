-- ===== src/Stream/Flight/Acks.antt =====
-- The accounts when packets are acknowledged.
use open_weaver.Base.{
  ℕ, ◌^◌, ◌≤◌, ◌<◌, ◌≡◌, refl, sym, ap, ◌∙◌, inl, inr, Bool, true, false, ◌&&◌, some, List, [], ◌∷◌,
  arith, ◌==◌, if◌then◌else◌, Bool-cases, Option-cases, add64, sub64,
}
use open_weaver.Dict.{Dict, lookup, erase}
use open_weaver.Dict.Sorted.{Sorted, KeysBelow-erase, Sorted-erase, total-erase}
use open_weaver.Stream.Types.{
  Transport, Env, SendStream, DataItem, SentPacketInfo, emit, fault, did_send, max64,
}
use open_weaver.Stream.Send.{resolve}
use open_weaver.Stream.Handshake.{ids_match, send_rst}
use open_weaver.Stream.Flight.Losses.{detect_lost-Accounts, send_pending_data-Accounts}
use open_weaver.Stream.Ack.{
  is_established, sent_too_early, ack_packet, ack_packets, ack_stream, ack_range, ack_all_ranges,
  between, overruns, hand_back, grow_window, note_largest, did_recv_ack, is_sent, loses_place,
}
use open_weaver.Stream.Flight.{Kept, Accounted, Accounts, packets_sent, packet_length}
use open_weaver.Stream.Flight.Sending.{Accounts-same}
use open_weaver.Stream.Flight.Between.{
  FitLengths-erase, Found, between-Sorted, Found-erase, FitLengths-lookup, between-Found,
}

-- What the acknowledgement of one packet does to the accounts.
record Acked (p : SentPacketInfo) (t u : Transport) : Type 0 where
  number : u.last_sent_packet ≡ t.last_sent_packet
  sent : u.sent_packets ≡ t.sent_packets
  lost : u.lost_packets ≡ t.lost_packets
  in_flight : u.bytes_in_flight ≡ sub64 t.bytes_in_flight p.length
  count : packets_sent u.out ≡ packets_sent t.out

hand_back-same :
    (bs : List (List ℕ)) (t : Transport)
    → let u = hand_back bs t in
      (u.last_sent_packet ≡ t.last_sent_packet)
      × (u.sent_packets ≡ t.sent_packets)
      × (u.lost_packets ≡ t.lost_packets)
      × (u.bytes_in_flight ≡ t.bytes_in_flight)
      × (packets_sent u.out ≡ packets_sent t.out)
unfolding hand_back
hand_back-same [] t = (refl, refl, refl, refl, refl)
hand_back-same (b ∷ bs) t = hand_back-same bs (emit (did_send b) t)

-- The same, with or without a fault in front.
hand_back-lost :
    (lost : Bool) (bs : List (List ℕ)) (t : Transport)
    → let u = hand_back bs (if lost then emit fault t else t) in
      (u.last_sent_packet ≡ t.last_sent_packet)
      × (u.sent_packets ≡ t.sent_packets)
      × (u.lost_packets ≡ t.lost_packets)
      × (u.bytes_in_flight ≡ t.bytes_in_flight)
      × (packets_sent u.out ≡ packets_sent t.out)
hand_back-lost true bs t = hand_back-same bs (emit fault t)
hand_back-lost false bs t = hand_back-same bs t

grow_window-same :
    (app_limited : Bool) (p : SentPacketInfo) (t : Transport)
    → let u = grow_window app_limited p t in
      (u.last_sent_packet ≡ t.last_sent_packet)
      × (u.sent_packets ≡ t.sent_packets)
      × (u.lost_packets ≡ t.lost_packets)
      × (u.bytes_in_flight ≡ t.bytes_in_flight)
      × (u.out ≡ t.out)
unfolding grow_window
grow_window-same app_limited p t = ground arith

ack_packet-Acked :
    (app_limited : Bool) (p : SentPacketInfo) (q : SendStream × DataItem) (t : Transport)
    → (ack_packet app_limited p q t).1 ≡ false
    → Acked p t (ack_packet app_limited p q t).0
unfolding ack_packet
ack_packet-Acked app_limited p (s, item) t going =
    let (s1, done) = ack_stream (add64 item.stream_offset p.offset) p.length s in
    let t0 = if loses_place s (s1, done) then emit fault t else t in
    let h = hand_back-lost (loses_place s (s1, done)) done t in
    let t1 = hand_back done t0 in
    let g =
      grow_window-same app_limited p
        (record t1 { bytes_in_flight = sub64 t1.bytes_in_flight p.length }) in
    let done_with : Bool = is_sent s1.state && s1.acked_offset == s1.queue_offset in
    elim (Bool-cases done_with) [
      | inl finished ↦ absurd (let bad = rw (ack_packet, finished) at going in ground arith)
      | inr open_still ↦
          rw (ack_packet, open_still)
            (record {
              number = g.0 ∙ h.0;
              sent = g.1 ∙ h.1;
              lost = g.2 ∙ h.2;
              in_flight = g.3 ∙ ap (λ b. sub64 b p.length) h.3;
              count = ap packets_sent g.4 ∙ h.4;
            })
    ]

pub ack_packet-sent_packets :
    (app_limited : Bool) (p : SentPacketInfo) (q : SendStream × DataItem) (t : Transport)
    → (ack_packet app_limited p q t).1 ≡ false
    → (ack_packet app_limited p q t).0.sent_packets ≡ t.sent_packets
ack_packet-sent_packets app_limited p q t going = (ack_packet-Acked app_limited p q t going).sent

-- One acknowledged packet leaves the sent ones.
ack_one-Kept :
    (n key : ℕ) (p : SentPacketInfo) (sent : Dict SentPacketInfo) (in_flight : ℕ)
    → in_flight < 2 ^ 64
    → lookup key sent ≡ some p
    → Kept n sent in_flight
    → Kept n (erase key sent) (sub64 in_flight p.length)
ack_one-Kept n key p sent in_flight w here k = record {
  below = KeysBelow-erase n key sent k.below;
  sorted = Sorted-erase key sent k.sorted;
  fit = FitLengths-erase key sent k.fit;
  balance =
      let e = total-erase packet_length key p sent k.sorted here in
      let f = FitLengths-lookup key p sent k.fit here in omega (arith, k.balance);
}

-- A step after which the accounts of `n` packets hold, and which sends none.
record Unsent (n : ℕ) (t u : Transport) : Type 0 where
  same : packets_sent u.out ≡ packets_sent t.out
  books : Accounted n u

Unsent-trans : (n : ℕ) (t u v : Transport) → Unsent n t u → Unsent n u v → Unsent n t v
Unsent-trans n t u v a b = record { same = b.same ∙ a.same; books = b.books }

ack_packets-Unsent :
    (app_limited : Bool) (l : Dict SentPacketInfo) (n : ℕ) (t : Transport)
    → n ≤ 2 ^ 64
    → Sorted l
    → Found l t.sent_packets
    → Accounted n t
    → (ack_packets app_limited l t).1 ≡ false
    → Unsent n t (ack_packets app_limited l t).0
unfolding ack_packets
ack_packets-Unsent app_limited [] n t le s f b r = record { same = refl; books = b }
ack_packets-Unsent app_limited ((key, p) ∷ rest) n t le s f b r =
    elim (Option-cases (resolve p t)) [
      | inl gone ↦ absurd (let bad = rw (ack_packets, gone) at r in ground arith)
      | inr (q, here) ↦
          let x = ack_packet app_limited p q t in
          elim (Bool-cases x.1) [
            | inl finished ↦
                absurd (let bad = rw (ack_packets, here, finished) at r in ground arith)
            | inr go_on ↦
                let a = ack_packet-Acked app_limited p q t go_on in
                let t' : Transport = record x.0 { sent_packets = erase key x.0.sent_packets } in
                let b' : Accounted n t' = record {
                  number = rw (a.number) b.number;
                  bound = rw (a.in_flight) (omega arith);
                  lost_fit = rw (a.lost) b.lost_fit;
                  kept = λ z.
                      rw (a.sent, a.in_flight)
                        (ack_one-Kept n key p t.sent_packets t.bytes_in_flight b.bound f.0
                          (b.kept z));
                } in
                rw (ack_packets, here, go_on)
                  (let first : Unsent n t t' = record { same = a.count; books = b' } in
                    Unsent-trans n t t' _ first (
                      ack_packets-Unsent app_limited rest n t' le s.1
                        (rw (a.sent) (Found-erase key rest t.sent_packets s.0 f.1)) b'
                        (rw (ack_packets, here, go_on) at r)))
          ]
    ]

-- A range whose packets cannot be walked cuts the walk.
ack_range_cut :
    (app_limited : Bool) (low high : ℕ) (t : Transport)
    → overruns (add64 low 1) high t.sent_packets ≡ true
    → (ack_range app_limited low high t).1 ≡ true
unfolding ack_range
ack_range_cut app_limited low high t over =
    let to_end = ack_packets app_limited (between (add64 low 1) max64 t.sent_packets) t in
    elim (Bool-cases to_end.1) [
      | inl cut ↦ rw (ack_range, over, cut) cut
      | inr on ↦ rw (ack_range, over, on) refl
    ]

ack_range-Unsent :
    (app_limited : Bool) (low high n : ℕ) (t : Transport)
    → n ≤ 2 ^ 64
    → Accounted n t
    → (ack_range app_limited low high t).1 ≡ false
    → Unsent n t (ack_range app_limited low high t).0
unfolding ack_range
ack_range-Unsent app_limited low high n t le b r =
    elim (Bool-cases (overruns (add64 low 1) high t.sent_packets)) [
      | inl over ↦ absurd (
          let bad = ack_range_cut app_limited low high t over in
          let q = sym bad ∙ r in ground arith)
      | inr fine ↦
          let k = b.kept le in
          rw (ack_range, fine)
            (ack_packets-Unsent app_limited _ n t le (between-Sorted _ high _ k.sorted)
              (between-Found _ high _ k.sorted) b (rw (ack_range, fine) at r))
    ]

-- The runs of seen numbers, from `high` down.
ack_all_ranges-Unsent :
    (app_limited : Bool) (rs : List ℕ) (high : ℕ) (gap : Bool) (n : ℕ) (t : Transport)
    → n ≤ 2 ^ 64
    → Accounted n t
    → (ack_all_ranges app_limited high gap rs t).1 ≡ false
    → Unsent n t (ack_all_ranges app_limited high gap rs t).0
unfolding ack_all_ranges
ack_all_ranges-Unsent app_limited [] high gap n t le b r = record { same = refl; books = b }
ack_all_ranges-Unsent app_limited (x ∷ rs) high true n t le b r =
    ack_all_ranges-Unsent app_limited rs (sub64 high x) false n t le b r
ack_all_ranges-Unsent app_limited (x ∷ rs) high false n t le b r =
    let one = ack_range app_limited (sub64 high x) high t in
    elim (Bool-cases one.1) [
      | inl cut ↦ absurd (let bad = sym cut ∙ rw (ack_all_ranges, cut) at r in ground arith)
      | inr on ↦
          let a = ack_range-Unsent app_limited (sub64 high x) high n t le b on in
          rw (ack_all_ranges, on)
            (Unsent-trans n t one.0 _ a (
              ack_all_ranges-Unsent app_limited rs (sub64 high x) true n one.0 le a.books
                (rw (ack_all_ranges, on) at r)))
    ]

pub note_largest-same :
    (e : Env) (largest : ℕ) (t : Transport)
    → let u = note_largest e largest t in
      (u.last_sent_packet ≡ t.last_sent_packet)
      × (u.sent_packets ≡ t.sent_packets)
      × (u.lost_packets ≡ t.lost_packets)
      × (u.bytes_in_flight ≡ t.bytes_in_flight)
      × (u.out ≡ t.out)
unfolding note_largest
note_largest-same e largest t = ground arith

-- The walk that `did_recv_ack` makes through the ranges of an ACK.
abbrev pub ack_walk : Env → ℕ → List ℕ → Transport → Transport × Bool
ack_walk e largest ranges t =
    let t1 = note_largest e largest t in
    ack_all_ranges (e.floats.below_window t1.bytes_in_flight t1.congestion_window) largest false
      ranges t1

ack_walk-Unsent :
    (e : Env) (largest : ℕ) (ranges : List ℕ) (n : ℕ) (t : Transport)
    → n ≤ 2 ^ 64
    → Accounted n t
    → (ack_walk e largest ranges t).1 ≡ false
    → Unsent n t (ack_walk e largest ranges t).0
ack_walk-Unsent e largest ranges n t le b r =
    let c = note_largest-same e largest t in
    let t1 = note_largest e largest t in
    let b1 : Accounted n t1 = rw (c.0, c.1, c.2, c.3) b in
    let a = ack_all_ranges-Unsent _ ranges largest false n t1 le b1 r in
    record { same = a.same ∙ ap packets_sent c.4; books = a.books }

-- An ACK keeps the accounts, whatever ranges it carries, unless its walk through the ranges is cut short:
-- if the lengths of the packets that were sent and are neither acknowledged nor lost add up to the bytes
-- in flight, this holds after the handler too, in which packets are acknowledged and others become lost.
-- It is stated for up to 2 ^ 64 packets sent on a connection.
pub did_recv_ack-Accounts :
    (e : Env) (src dst largest : ℕ) (ranges : List ℕ) (n : ℕ) (t : Transport)
    → n ≤ 2 ^ 64
    → Accounted n t
    → (ack_walk e largest ranges t).1 ≡ false
    → Accounts n t (did_recv_ack e src dst largest ranges t)
unfolding did_recv_ack send_rst
did_recv_ack-Accounts e src dst largest ranges n t le b r =
    let w = ack_walk-Unsent e largest ranges n t le b r in
    let t2 = (ack_walk e largest ranges t).0 in
    let a =
      send_pending_data-Accounts n t2 _
        (detect_lost-Accounts e (sent_too_early t2.largest_sent_time) n t2 le w.books) in
    let whole : packets_sent t2.out ≡ packets_sent t.out = w.same in
    elim (Bool-cases (is_established t.conn_state)) [
      | inr not_live ↦ rw (did_recv_ack, not_live) (Accounts-same n t b)
      | inl live ↦ elim (Bool-cases (ids_match src dst t)) [
        | inr other ↦ rw (did_recv_ack, live, other) (record { m = n; count = refl; books = b })
        | inl ours ↦
            rw (did_recv_ack, live, ours, r)
              (record { m = a.m; count = omega (arith, a.count); books = a.books })
      ]
    ]
