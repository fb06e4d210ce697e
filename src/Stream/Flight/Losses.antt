-- ===== src/Stream/Flight/Losses.antt =====
-- The accounts when packets count as lost: the tail loss probe, and the end of an ACK.
use open_weaver.Base.{
  ℕ, ◌+◌, ◌%◌, ◌^◌, ◌≤◌, ◌<◌, ◌≡◌, refl, ◌∙◌, ◌≢◌, ◌⊎◌, inl, inr, Bool, true, Option, none, some,
  [], ◌∷◌, arith, ltb, Bool-cases, Option-cases, sub64,
}
use open_weaver.Dict.{Dict, lookup, total, KeysBelow, assign}
use open_weaver.Dict.Sorted.{Sorted}
use open_weaver.Stream.Types.{reset, Transport, Env, SentPacketInfo}
use open_weaver.Stream.Send.{send_pending_data, is_idle}
use open_weaver.Stream.Handshake.{reset_and_close}
use open_weaver.Stream.Ack.{
  on_tlp_timer, mark_lost, scan_lost, LossScan, congestion_event, detect_lost,
}
use open_weaver.Stream.Flight.{
  FitLengths-assign, FitLengths, Accounted, Accounts, packets_sent, packet_length,
}

record Marked (key : ℕ) (p : SentPacketInfo) (t u : Transport) : Type 0 where
  number : u.last_sent_packet ≡ t.last_sent_packet
  sent : u.sent_packets ≡ t.sent_packets
  in_flight : u.bytes_in_flight ≡ sub64 t.bytes_in_flight p.length
  count : packets_sent u.out ≡ packets_sent t.out
  lost : u.lost_packets ≡ assign key p t.lost_packets

mark_lost-Marked :
    (key : ℕ) (p : SentPacketInfo) (t : Transport) → Marked key p t (mark_lost key p t)
unfolding mark_lost
mark_lost-Marked key p t = elim (Option-cases (lookup p.stream t.send_streams)) [
  | inl gone ↦
      rw (mark_lost, gone)
        (record { number = refl; sent = refl; in_flight = refl; count = refl; lost = refl })
  | inr (s, here) ↦
      rw (mark_lost, here)
        (record { number = refl; sent = refl; in_flight = refl; count = refl; lost = refl })
]

some_not_none : (x : ℕ) → ◌≢◌ {A = Option ℕ} (some x) none
some_not_none x q = ground arith

-- A run over the packets `m` in front of the scan.
record Scanned (last : Option ℕ) (m : Dict SentPacketInfo) (t : Transport) (r : LossScan)
    : Type 0 where
  number : r.transport.last_sent_packet ≡ t.last_sent_packet
  sent : r.transport.sent_packets ≡ t.sent_packets
  count : packets_sent r.transport.out ≡ packets_sent t.out
  balance :
      (r.transport.bytes_in_flight + total packet_length m) % 2 ^ 64
      ≡ (t.bytes_in_flight + total packet_length r.left) % 2 ^ 64
  below : (n : ℕ) → KeysBelow n m → KeysBelow n r.left
  sorted : Sorted m → Sorted r.left
  some_stays : last ≢ none → r.last_time ≢ none
  fit : FitLengths m → FitLengths r.left
  bound : r.transport.bytes_in_flight < 2 ^ 64
  lost_fit : FitLengths m → FitLengths t.lost_packets → FitLengths r.transport.lost_packets
  idle : (last ≡ none) → (r.last_time ≡ none) → (r.transport.bytes_in_flight ≡ t.bytes_in_flight)

scan_lost-Scanned :
    (test : ℕ → Bool) (last : Option ℕ) (m : Dict SentPacketInfo) (t : Transport)
    → t.bytes_in_flight < 2 ^ 64
    → FitLengths m
    → Scanned last m t (scan_lost test last m t)
unfolding scan_lost total
scan_lost-Scanned test last [] t w f = record {
  number = refl;
  sent = refl;
  count = refl;
  balance = refl;
  below = λ n b. b;
  sorted = λ s. s;
  some_stays = λ h. h;
  fit = λ x. x;
  bound = w;
  lost_fit = λ a l. l;
  idle = λ a b. refl;
}
scan_lost-Scanned test last ((key, p) ∷ rest) t w f = elim (Bool-cases (test p.sent_time)) [
  | inr kept ↦
      rw (scan_lost, kept)
        (record {
          number = refl;
          sent = refl;
          count = refl;
          balance = refl;
          below = λ n b. b;
          sorted = λ s. s;
          some_stays = λ h. h;
          fit = λ x. x;
          bound = w;
          lost_fit = λ a l. l;
          idle = λ a b. refl;
        })
  | inl lost ↦
      let u = mark_lost key p t in
      let k = mark_lost-Marked key p t in
      let h = scan_lost-Scanned test (some p.sent_time) rest u (omega (arith, k.in_flight)) f.1 in
      rw (scan_lost, lost)
        (record {
          number = h.number ∙ k.number;
          sent = h.sent ∙ k.sent;
          count = h.count ∙ k.count;
          balance = omega (arith, h.balance, k.in_flight, f.0);
          below = λ n b. h.below n b.1;
          sorted = λ s. h.sorted s.1;
          some_stays = λ h0. h.some_stays (some_not_none p.sent_time);
          bound = h.bound;
          lost_fit =
              λ a l. h.lost_fit a.1 (rw (k.lost) (FitLengths-assign key p t.lost_packets a.0 l));
          fit = λ x. h.fit x.1;
          idle = λ a q. absurd (h.some_stays (some_not_none p.sent_time) q);
        })
]

congestion_event-same :
    (e : Env) (time : ℕ) (t : Transport)
    → let u = congestion_event e time t in
      (u.last_sent_packet ≡ t.last_sent_packet)
      × (u.bytes_in_flight ≡ t.bytes_in_flight)
      × (u.lost_packets ≡ t.lost_packets)
      × (u.out ≡ t.out)
unfolding congestion_event
congestion_event-same e time t = ground arith

pub detect_lost-Accounts :
    (e : Env) (test : ℕ → Bool) (n : ℕ) (t : Transport)
    → n ≤ 2 ^ 64
    → Accounted n t
    → Accounts n t (detect_lost e test t)
unfolding detect_lost
detect_lost-Accounts e test n t le b =
    let k = b.kept le in
    let r = scan_lost test none t.sent_packets t in
    let h = scan_lost-Scanned test none t.sent_packets t b.bound k.fit in
    elim (Option-cases r.last_time) [
      | inl nothing ↦
          rw (detect_lost, nothing)
            (record {
              m = n;
              count = omega (arith, h.count);
              books = record {
                number = rw (h.number) b.number;
                bound = h.bound;
                lost_fit = h.lost_fit k.fit b.lost_fit;
                kept = λ le. rw (h.sent, h.idle refl nothing) k;
              };
            })
      | inr (time, some_lost) ↦
          let c = congestion_event-same e time r.transport in
          rw (detect_lost, some_lost)
            (record {
              m = n;
              count = rw (c.3) (omega (arith, h.count));
              books = record {
                number = rw (c.0, h.number) b.number;
                bound = rw (c.1) h.bound;
                lost_fit = rw (c.2) (h.lost_fit k.fit b.lost_fit);
                kept = λ le. rw (c.1) (record {
                  below = h.below n k.below;
                  sorted = h.sorted k.sorted;
                  fit = h.fit k.fit;
                  balance = omega (arith, h.balance, k.balance, h.bound);
                });
              };
            })
    ]

send_pending_data-same :
    (t : Transport)
    → let u = send_pending_data t in
      (u.last_sent_packet ≡ t.last_sent_packet)
      × (u.sent_packets ≡ t.sent_packets)
      × (u.lost_packets ≡ t.lost_packets)
      × (u.bytes_in_flight ≡ t.bytes_in_flight)
      × (u.out ≡ t.out)
unfolding send_pending_data
send_pending_data-same t = ground arith

pub send_pending_data-Accounts :
    (n : ℕ) (t u : Transport) → Accounts n t u → Accounts n t (send_pending_data u)
send_pending_data-Accounts n t u a =
    let c = send_pending_data-same u in
    record { m = a.m; count = rw (c.4) a.count; books = rw (c.0, c.1, c.2, c.3) a.books }

-- The tail loss probe keeps the accounts: if the lengths of the packets that were sent and are neither
-- acknowledged nor lost add up to the bytes in flight, this holds after the callback too, in which all
-- packets in flight become lost ones; or the connection is reset, and the accounts start anew at no
-- packet sent. It is stated for up to 2 ^ 64 packets sent on a connection.
pub on_tlp_timer-Accounts :
    (e : Env) (n : ℕ) (t : Transport)
    → n ≤ 2 ^ 64
    → Accounted n t
    → Accounts n t (on_tlp_timer e t) ⊎ Accounted 0 (on_tlp_timer e t)
unfolding on_tlp_timer reset_and_close reset total
on_tlp_timer-Accounts e n t le b =
    let u = send_pending_data (detect_lost e (λ _. true) t) in
    let a = send_pending_data-Accounts n t _ (detect_lost-Accounts e (λ _. true) n t le b) in
    elim (Bool-cases (is_idle t)) [
      | inl idle ↦ rw (on_tlp_timer, idle) (inl (record { m = n; count = refl; books = b }))
      | inr busy ↦ elim (Bool-cases (ltb u.tlp_interval 25000)) [
        | inl again ↦
            rw (on_tlp_timer, busy, again)
              (inl (record { m = a.m; count = a.count; books = a.books }))
        | inr give_up ↦
            rw (on_tlp_timer, busy, give_up)
              (inr (record {
                number = refl;
                bound = omega arith;
                lost_fit = tt;
                kept = λ z. record { below = tt; sorted = tt; fit = tt; balance = refl };
              }))
      ]
    ]
