-- ===== src/Stream/Flight/Sending.antt =====
-- The accounts through the sending loops: the pacing timer.
use open_weaver.Base.{
  ℕ, zero, suc, ◌+◌, ◌^◌, ◌≤◌, ◌<◌, ◌≡◌, refl, ◌⊎◌, inl, inr, false, List, [], ◌∷◌, ◌++◌, arith,
  ltb, leb, Bool-cases, Option-cases, sub64, length, take, drop,
}
use open_weaver.Dict.{Dict, lookup}
use open_weaver.Stream.Types.{
  Transport, Env, SendStream, DataItem, SentPacketInfo, default_pacing_limit,
}
use open_weaver.Stream.Send.{
  send_data, send_fragment, send_fragments, fragment_size, send_items, send_new_data, resend,
  resolve, send_lost, send_lost_data, pace, on_pacing_timer, Progress, complete, pacing_limit_hit,
  window_full, put_send_stream, remove_id,
}
use open_weaver.Stream.Flight.{FitLengths, Books-send, Accounted, Accounts, Accounts-trans}

-- A step that sends nothing and changes no account.
pub Accounts-same : (n : ℕ) (t : Transport) → Accounted n t → Accounts n t t
Accounts-same n t b = record { m = n; count = refl; books = b }

pub Progress-cases : (p : Progress) → (p ≡ complete) ⊎ ((p ≡ pacing_limit_hit) ⊎ (p ≡ window_full))
Progress-cases complete = inl refl
Progress-cases pacing_limit_hit = inr (inl refl)
Progress-cases window_full = inr (inr refl)

-- A fragment carries at most 1350 bytes.
fragment_size_le : (item : DataItem) → fragment_size item ≤ 1350
unfolding fragment_size
fragment_size_le item = ground arith

send_fragment-Accounts :
    (e : Env) (id i : ℕ) (s : SendStream) (item : DataItem) (n : ℕ) (t : Transport)
    → Accounted n t
    → Accounts n t (send_fragment e id i s item t).transport
unfolding send_fragment send_data
send_fragment-Accounts e id i s item n t b = record {
  m = suc n;
  count = omega arith;
  books =
      Books-send n t.last_sent_packet _ t.sent_packets t.lost_packets t.bytes_in_flight
        (omega (arith, fragment_size_le item)) b;
}

send_fragments-Accounts :
    (fuel : ℕ) (e : Env) (id initial i : ℕ) (s : SendStream) (item : DataItem) (n : ℕ)
    (t : Transport)
    → Accounted n t
    → Accounts n t (send_fragments fuel e id initial i s item t).transport
unfolding send_fragments
send_fragments-Accounts zero e id initial i s item n t b = Accounts-same n t b
send_fragments-Accounts (suc fuel) e id initial i s item n t b =
    let r = send_fragment e id i s item t in
    let a = send_fragment-Accounts e id i s item n t b in
    let next =
      send_fragments-Accounts fuel e id initial (i + 1350) r.stream r.item a.m r.transport
        a.books in
    elim (Bool-cases (leb (length item.bytes) i)) [
      | inl end ↦ rw end (Accounts-same n t b)
      | inr more ↦
          elim (Bool-cases
            (ltb (sub64 t.congestion_window (fragment_size item)) t.bytes_in_flight)) [
              | inl full ↦ rw (more, full) (Accounts-same n t b)
              | inr fits ↦
                  elim (Bool-cases (ltb default_pacing_limit (sub64 t.bytes_in_flight initial))) [
                    | inl hit ↦ rw (more, fits, hit) (Accounts-same n t b)
                    | inr free ↦ rw (more, fits, free) (Accounts-trans n t r.transport _ a next)
                  ]
            ]
    ]

send_items-Accounts :
    (e : Env) (id initial : ℕ) (before items : List DataItem) (s : SendStream) (n : ℕ)
    (t : Transport)
    → Accounted n t
    → Accounts n t (send_items e id initial before items s t).1
unfolding send_items
send_items-Accounts e id initial before [] s n t b = Accounts-same n t b
send_items-Accounts e id initial before (item ∷ items) s n t b =
    let r = send_fragments (suc (length item.bytes)) e id initial item.sent_offset s item t in
    let a =
      send_fragments-Accounts (suc (length item.bytes)) e id initial item.sent_offset s item n t
        b in
    let next =
      send_items-Accounts e id initial (before ++ r.item ∷ []) items r.stream a.m r.transport
        a.books in
    elim (Progress-cases r.progress) [
      | inl done ↦ rw (send_items, done) (Accounts-trans n t r.transport _ a next)
      | inr (inl hit) ↦ rw (send_items, hit) a
      | inr (inr full) ↦ rw (send_items, full) a
    ]

resend-Accounts :
    (e : Env) (p : SentPacketInfo) (q : SendStream × DataItem) (n : ℕ) (t : Transport)
    → p.length < 2 ^ 64
    → Accounted n t
    → Accounts n t (resend e p q t)
unfolding resend send_data
resend-Accounts e p (s, item) n t w b = record {
  m = suc n;
  count = omega arith;
  books = Books-send n t.last_sent_packet _ t.sent_packets t.lost_packets t.bytes_in_flight w b;
}

send_lost-Accounts :
    (e : Env) (initial : ℕ) (lost : Dict SentPacketInfo) (n : ℕ) (t : Transport)
    → FitLengths lost
    → Accounted n t
    → Accounts n t (send_lost e initial lost t).0
unfolding send_lost
send_lost-Accounts e initial [] n t w b = Accounts-same n t b
send_lost-Accounts e initial ((key, p) ∷ rest) n t w b =
    elim (Bool-cases (leb default_pacing_limit (sub64 t.bytes_in_flight initial))) [
      | inl hit ↦ rw hit (record { m = n; count = refl; books = b })
      | inr free ↦ elim (Bool-cases (ltb (sub64 t.congestion_window p.length) t.bytes_in_flight)) [
        | inl full ↦ rw (free, full) (Accounts-same n t b)
        | inr fits ↦ elim (Option-cases (resolve p t)) [
          | inl gone ↦ rw (free, fits, gone) (record { m = n; count = refl; books = b })
          | inr (q, here) ↦
              let a = resend-Accounts e p q n t w.0 b in
              let t' : Transport = record (resend e p q t) { lost_packets = rest } in
              let a' : Accounts n t t' = record {
                m = a.m;
                count = a.count;
                books = record {
                  number = a.books.number;
                  bound = a.books.bound;
                  lost_fit = w.1;
                  kept = a.books.kept;
                };
              } in
              rw (free, fits, here)
                (Accounts-trans n t t' _ a' (send_lost-Accounts e initial rest a.m t' w.1 a'.books))
        ]
      ]
    ]

pace-Accounts :
    (e : Env) (initial : ℕ) (ids : List ℕ) (n : ℕ) (t : Transport)
    → Accounted n t
    → Accounts n t (pace e initial ids t)
unfolding pace send_new_data
pace-Accounts e initial [] n t b = Accounts-same n t b
pace-Accounts e initial (id ∷ rest) n t b = elim (Option-cases (lookup id t.send_streams)) [
  | inl none_there ↦ rw (pace, none_there) (record { m = n; count = refl; books = b })
  | inr (s, there) ↦
      let r =
        send_items e id initial (take s.next_item s.data_queue) (drop s.next_item s.data_queue) s
          t in
      let a =
        send_items-Accounts e id initial (take s.next_item s.data_queue)
          (drop s.next_item s.data_queue) s n t b in
      let t' = put_send_stream id r.0 r.1 in
      let idle : Transport = record t' {
        send_queue_ids = remove_id id t'.send_queue_ids;
        send_queue = rest;
      } in
      let a' : Accounts n t idle = record { m = a.m; count = a.count; books = a.books } in
      elim (Progress-cases r.2) [
        | inl done ↦
            rw (pace, there, done)
              (Accounts-trans n t idle _ a' (pace-Accounts e initial rest a.m idle a.books))
        | inr (inl hit) ↦
            rw (pace, there, hit) (record { m = a.m; count = a.count; books = a.books })
        | inr (inr full) ↦
            rw (pace, there, full) (record { m = a.m; count = a.count; books = a.books })
      ]
]

-- The pacing timer keeps the accounts: if the lengths of the packets that were sent and are neither
-- acknowledged nor lost add up to the bytes in flight, and their numbers are those below the number of
-- packets sent, this holds after the callback too, in which lost packets are sent again and queued data
-- is sent, and the number of packets has grown by the DATA messages that went out.
pub on_pacing_timer-Accounts :
    (e : Env) (n : ℕ) (t : Transport) → Accounted n t → Accounts n t (on_pacing_timer e t)
unfolding on_pacing_timer send_lost_data
on_pacing_timer-Accounts e n t b =
    let t0 : Transport = record t { is_pacing_timer_active = false } in
    let r = send_lost e t.bytes_in_flight t.lost_packets t0 in
    let a = send_lost-Accounts e t.bytes_in_flight t.lost_packets n t0 b.lost_fit b in
    let a' : Accounts n t r.0 = record { m = a.m; count = a.count; books = a.books } in
    elim (Progress-cases r.1) [
      | inl done ↦
          rw (on_pacing_timer, done)
            (Accounts-trans n t r.0 _ a'
              (pace-Accounts e t.bytes_in_flight r.0.send_queue a.m r.0 a.books))
      | inr (inl hit) ↦ rw (on_pacing_timer, hit) a'
      | inr (inr full) ↦ rw (on_pacing_timer, full) a'
    ]
