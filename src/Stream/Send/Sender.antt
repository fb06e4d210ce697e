-- ===== src/Stream/Send/Sender.antt =====
-- Everything that the pacing timer sends carries the bytes of its stream.
use open_weaver.Base.{
  ℕ, zero, suc, ◌+◌, ◌≤◌, ◌≡◌, refl, ap, ◌∙◌, inl, inr, false, some, List, [], ◌∷◌, ◌++◌, arith,
  ltb, leb, Bool-cases, Option-cases, add64, sub64, length, take, drop,
}
use open_weaver.Dict.{Dict, lookup}
use open_weaver.Stream.Types.{
  Keys, Transport, Env, SendStream, DataItem, SentPacketInfo, default_pacing_limit, Keys,
}
use open_weaver.Stream.Send.{
  send_data, note_sent, resend, resolve, find_item, send_lost, send_lost_data, send_fragment,
  send_fragments, fragment_size, send_items, send_new_data, pace, on_pacing_timer, put_send_stream,
  remove_id, Sending, Progress,
}
use open_weaver.Stream.Send.Fragments.{send_fragments-whole}
use open_weaver.Stream.Send.Sound.{
  AllSound, Holds, send_data-AllSound, send_fragments-AllSound, send_fragment-Holds,
}
use open_weaver.Stream.Flight.Sending.{Progress-cases}
use open_weaver.Stream.Send.Holding.{
  AllHold, Sender, find_item-Holds, AllHold-append, put-queues, AllHold-take,
}
use open_weaver.Stream.Send.Bounded.{AllBounded, resolve-found, put-AllBounded, note_sent-queue}

module _ (f : ℕ → ℕ → ℕ) (e : Env) (tag : length e.unset_tag ≡ 16) where
  module _ (id : ℕ) where
    record Keeps (item : DataItem) (t : Transport) (r : Sending) : Type 0 where
      holds : Holds (f id) item → Holds (f id) r.item
      keys : r.transport.keys ≡ t.keys
      streams : r.transport.send_streams ≡ t.send_streams

    send_fragment-same :
        (i : ℕ) (s : SendStream) (item : DataItem) (t : Transport)
        → let u = (send_fragment e id i s item t).transport in
          (u.keys ≡ t.keys) × (u.send_streams ≡ t.send_streams)
    unfolding send_fragment send_data
    send_fragment-same i s item t = (refl, refl)

    send_fragments-Keeps :
        (fuel initial i : ℕ) (s : SendStream) (item : DataItem) (t : Transport)
        → Keeps item t (send_fragments fuel e id initial i s item t)
    unfolding send_fragments
    send_fragments-Keeps zero initial i s item t = record {
      holds = λ h. h;
      keys = refl;
      streams = refl;
    }
    send_fragments-Keeps (suc fuel) initial i s item t =
        let r = send_fragment e id i s item t in
        let c = send_fragment-same i s item t in
        let ih = send_fragments-Keeps fuel initial (i + 1350) r.stream r.item r.transport in
        elim (Bool-cases (leb (length item.bytes) i)) [
          | inl end ↦
              rw (send_fragments, end) (record { holds = λ h. h; keys = refl; streams = refl })
          | inr more ↦
              elim (Bool-cases
                (ltb (sub64 t.congestion_window (fragment_size item)) t.bytes_in_flight)) [
                  | inl full ↦
                      rw (send_fragments, more, full)
                        (record { holds = λ h. h; keys = refl; streams = refl })
                  | inr fits ↦
                      elim (Bool-cases
                        (ltb default_pacing_limit (sub64 t.bytes_in_flight initial))) [
                          | inl hit ↦
                              rw (send_fragments, more, fits, hit)
                                (record { holds = λ h. h; keys = refl; streams = refl })
                          | inr free ↦
                              rw (send_fragments, more, fits, free)
                                (record {
                                  holds =
                                      λ h. ih.holds (send_fragment-Holds f e id tag i s item t h);
                                  keys = ih.keys ∙ c.0;
                                  streams = ih.streams ∙ c.1;
                                })
                        ]
                ]
        ]

    record Sent (t : Transport) (r : SendStream × Transport × Progress) : Type 0 where
      holds : AllHold (f id) r.0.data_queue
      sound : AllSound f r.1.out
      keys : r.1.keys ≡ t.keys
      streams : r.1.send_streams ≡ t.send_streams

    send_items-Sent :
        (initial : ℕ) (before items : List DataItem) (s : SendStream) (t : Transport)
        → length t.keys.nonce ≡ 12
        → AllHold (f id) before
        → AllHold (f id) items
        → AllSound f t.out
        → Sent t (send_items e id initial before items s t)
    unfolding send_items
    send_items-Sent initial before [] s t nonce a b sound = record {
      holds = a;
      sound = sound;
      keys = refl;
      streams = refl;
    }
    send_items-Sent initial before (item ∷ items) s t nonce a b sound =
        let r = send_fragments (suc (length item.bytes)) e id initial item.sent_offset s item t in
        let k = send_fragments-Keeps (suc (length item.bytes)) initial item.sent_offset s item t in
        let w = send_fragments-whole e id initial s item t (omega (arith, b.0.fits)) b.1 in
        let sent : AllSound f r.transport.out =
          send_fragments-AllSound f e id tag (suc (length item.bytes)) initial s item t nonce b.0
            b.1 sound in
        let here : AllHold (f id) (r.item ∷ []) =
          (k.holds b.0, omega (arith, w.within, ap length w.same), tt) in
        let stopped : AllHold (f id) (before ++ (r.item ∷ items)) =
          AllHold-append (f id) before (r.item ∷ items) a (here.0, here.1, b.2) in
        let next =
          send_items-Sent initial (before ++ r.item ∷ []) items r.stream r.transport
            (ap (λ (x : Keys). length x.nonce) k.keys ∙ nonce)
            (AllHold-append (f id) before (r.item ∷ []) a here) b.2 sent in
        elim (Progress-cases r.progress) [
          | inl done ↦
              rw (send_items, done)
                (record {
                  holds = next.holds;
                  sound = next.sound;
                  keys = next.keys ∙ k.keys;
                  streams = next.streams ∙ k.streams;
                })
          | inr (inl hit) ↦
              rw (send_items, hit)
                (record { holds = stopped; sound = sent; keys = k.keys; streams = k.streams })
          | inr (inr full) ↦
              rw (send_items, full)
                (record { holds = stopped; sound = sent; keys = k.keys; streams = k.streams })
        ]

  -- The streams after new data of one stream was sent.
  put-Sent-Sender :
      (id : ℕ) (t : Transport) (r : SendStream × Transport × Progress)
      → Sender f t
      → Sent id t r
      → Sender f (put_send_stream id r.0 r.1)
  put-Sent-Sender id t r b h = record {
    sound = h.sound;
    nonce = ap (λ (x : Keys). length x.nonce) h.keys ∙ b.nonce;
    queues = put-queues f id r.0 r.1.send_streams h.holds (rw (h.streams) b.queues);
  }

  pace-Sender :
      (initial : ℕ) (ids : List ℕ) (t : Transport) → Sender f t → Sender f (pace e initial ids t)
  unfolding pace send_new_data
  pace-Sender initial [] t b = b
  pace-Sender initial (id ∷ rest) t b = elim (Option-cases (lookup id t.send_streams)) [
    | inl gone ↦ rw (pace, gone) (record { sound = b.sound; nonce = b.nonce; queues = b.queues })
    | inr (s, there) ↦
        let r =
          send_items e id initial (take s.next_item s.data_queue) (drop s.next_item s.data_queue) s
            t in
        let halves = AllHold-take (f id) s.next_item s.data_queue (b.queues id s there) in
        let h =
          send_items-Sent id initial (take s.next_item s.data_queue) (drop s.next_item s.data_queue)
            s t b.nonce halves.0 halves.1 b.sound in
        let put = put-Sent-Sender id t r b h in
        let t' = put_send_stream id r.0 r.1 in
        let idle : Transport = record t' {
          send_queue_ids = remove_id id t'.send_queue_ids;
          send_queue = rest;
        } in
        let idle-Sender : Sender f idle = record {
          sound = put.sound;
          nonce = put.nonce;
          queues = put.queues;
        } in
        elim (Progress-cases r.2) [
          | inl done ↦ rw (pace, there, done) (pace-Sender initial rest idle idle-Sender)
          | inr (inl hit) ↦
              rw (pace, there, hit)
                (record { sound = put.sound; nonce = put.nonce; queues = put.queues })
          | inr (inr full) ↦ rw (pace, there, full) put
        ]
  ]

module _ (f : ℕ → ℕ → ℕ) (e : Env) (tag : length e.unset_tag ≡ 16) where
  resend-Sender :
      (p : SentPacketInfo) (s : SendStream) (item : DataItem) (t : Transport)
      → lookup p.stream t.send_streams ≡ some s
      → find_item p.data_item s.data_queue ≡ some item
      → p.offset + p.length ≤ length item.bytes
      → Sender f t
      → Sender f (resend e p (s, item) t)
  unfolding resend send_data
  resend-Sender p s item t here at le b =
      let queue = b.queues p.stream s here in
      let h = find_item-Holds (f p.stream) p.data_item s.data_queue item queue at in
      record {
        sound = send_data-AllSound f e p.stream tag s item p.offset p.length t b.nonce h le b.sound;
        nonce = b.nonce;
        queues =
            put-queues f p.stream
              (record (note_sent item p.offset p.length s) {
                bytes_in_flight =
                    add64 (note_sent item p.offset p.length s).bytes_in_flight p.length;
              })
              t.send_streams (rw (note_sent-queue item p.offset p.length s) queue) b.queues;
      }

  resend-AllBounded :
      (p : SentPacketInfo) (s : SendStream) (item : DataItem) (t : Transport)
      (lost : Dict SentPacketInfo)
      → lookup p.stream t.send_streams ≡ some s
      → AllBounded t.send_streams lost
      → AllBounded (resend e p (s, item) t).send_streams lost
  unfolding resend send_data
  resend-AllBounded p s item t lost here b =
      put-AllBounded p.stream s _ t.send_streams lost here
        (note_sent-queue item p.offset p.length s) b

  send_lost-Sender :
      (initial : ℕ) (lost : Dict SentPacketInfo) (t : Transport)
      → AllBounded t.send_streams lost
      → Sender f t
      → Sender f (send_lost e initial lost t).0
  unfolding send_lost
  send_lost-Sender initial [] t w b = b
  send_lost-Sender initial ((key, p) ∷ rest) t w b =
      elim (Bool-cases (leb default_pacing_limit (sub64 t.bytes_in_flight initial))) [
        | inl hit ↦
            rw (send_lost, hit) (record { sound = b.sound; nonce = b.nonce; queues = b.queues })
        | inr free ↦
            elim (Bool-cases (ltb (sub64 t.congestion_window p.length) t.bytes_in_flight)) [
              | inl full ↦ rw (send_lost, free, full) b
              | inr fits ↦ elim (Option-cases (resolve p t)) [
                | inl gone ↦
                    rw (send_lost, free, fits, gone)
                      (record { sound = b.sound; nonce = b.nonce; queues = b.queues })
                | inr ((s, item), there) ↦
                    let found = resolve-found p t s item there in
                    let u = resend e p (s, item) t in
                    let h =
                      resend-Sender p s item t found.0 found.1 (w.0 s found.0 item found.1) b in
                    let u' : Transport = record u { lost_packets = rest } in
                    let h' : Sender f u' = record {
                      sound = h.sound;
                      nonce = h.nonce;
                      queues = h.queues;
                    } in
                    rw (send_lost, free, fits, there)
                      (send_lost-Sender initial rest u'
                        (resend-AllBounded p s item t rest found.0 w.1) h')
              ]
            ]
      ]

  -- The pacing timer sends what the streams hold: if every item of every queue holds the bytes of its
  -- stream at its offset and was sent up to some place in it, every lost packet lies in the item to which
  -- it points, and all DATA messages that were sent so far carry bytes of their streams at their offsets,
  -- then after the callback, which sends lost packets again and new data, the queues and all DATA
  -- messages are so too. It is stated for streams that end below 2 ^ 64, and a tag of 16 and a nonce of
  -- 12 bytes; a message of this form is what `did_recv_data` needs to deliver the bytes of the stream.
  pub on_pacing_timer-Sender :
      (t : Transport)
      → AllBounded t.send_streams t.lost_packets
      → Sender f t
      → Sender f (on_pacing_timer e t)
  unfolding on_pacing_timer send_lost_data
  on_pacing_timer-Sender t w b =
      let t0 : Transport = record t { is_pacing_timer_active = false } in
      let b0 : Sender f t0 = record { sound = b.sound; nonce = b.nonce; queues = b.queues } in
      let r = send_lost e t.bytes_in_flight t.lost_packets t0 in
      let h = send_lost-Sender t.bytes_in_flight t.lost_packets t0 w b0 in
      elim (Progress-cases r.1) [
        | inl done ↦
            rw (on_pacing_timer, done) (pace-Sender f e tag t.bytes_in_flight r.0.send_queue r.0 h)
        | inr (inl hit) ↦ rw (on_pacing_timer, hit) h
        | inr (inr full) ↦ rw (on_pacing_timer, full) h
      ]
