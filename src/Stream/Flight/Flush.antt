-- ===== src/Stream/Flight/Flush.antt =====
-- The accounts when a stream is flushed.
use open_weaver.Base.{
  ℕ, ◌+◌, ◌%◌, ◌^◌, ◌≤◌, ◌<◌, ◌≡◌, refl, ap, ◌∙◌, ◌≢◌, inl, inr, [], ◌∷◌, arith, ◌==◌,
  if◌then◌else◌, Bool-cases, sub64,
}
use open_weaver.Dict.{Dict, total}
use open_weaver.Stream.Types.{Transport, SentPacketInfo}
use open_weaver.Stream.Skip.{
  flush_stream, without_stream, release_stream, get_or_create_send_stream, send_flushstream,
}
use open_weaver.Stream.Flight.{FitLengths, Accounted, packet_length}

-- The lengths of the packets of one stream.
unfoldable pub stream_length : ℕ → Dict SentPacketInfo → ℕ
stream_length id [] = 0
stream_length id ((key, p) ∷ m) = (if p.stream == id then p.length else 0) + stream_length id m

total-without_stream :
    (id : ℕ) (m : Dict SentPacketInfo)
    → total packet_length (without_stream id m) + stream_length id m ≡ total packet_length m
unfolding total without_stream stream_length
total-without_stream id [] = refl
total-without_stream id ((key, p) ∷ m) = ground (arith, total-without_stream id m)

release_stream-length :
    (id : ℕ) (m : Dict SentPacketInfo) (bytes : ℕ)
    → bytes < 2 ^ 64
    → FitLengths m
    → (release_stream id m bytes < 2 ^ 64)
      × ((release_stream id m bytes + stream_length id m) % 2 ^ 64 ≡ bytes)
unfolding release_stream stream_length
release_stream-length id [] bytes w f = (w, omega arith)
release_stream-length id ((key, p) ∷ m) bytes w f = elim (Bool-cases (p.stream == id)) [
  | inl own ↦
      let ih = release_stream-length id m (sub64 bytes p.length) (omega arith) f.1 in
      rw own (ih.0, omega (arith, ih.1, f.0))
  | inr other ↦
      let ih = release_stream-length id m bytes w f.1 in rw other (ih.0, omega (arith, ih.1))
]

get_or_create_send_stream-same :
    (id : ℕ) (t : Transport)
    → let u = (get_or_create_send_stream id t).1 in
      (u.sent_packets ≡ t.sent_packets)
      × (u.lost_packets ≡ t.lost_packets)
      × (u.bytes_in_flight ≡ t.bytes_in_flight)
unfolding get_or_create_send_stream
get_or_create_send_stream-same id t = ground arith

flush_stream-lists :
    (id : ℕ) (t : Transport)
    → ((flush_stream id t).sent_packets ≡ without_stream id t.sent_packets)
      × ((flush_stream id t).bytes_in_flight
          ≡ release_stream id t.lost_packets (release_stream id t.sent_packets t.bytes_in_flight))
unfolding flush_stream send_flushstream
flush_stream-lists id t =
    let c = get_or_create_send_stream-same id t in
    (
      ap (λ m. without_stream id m) c.0,
      ap
            (λ m. release_stream id m (
              release_stream id (get_or_create_send_stream id t).1.sent_packets
                (get_or_create_send_stream id t).1.bytes_in_flight))
            c.1
          ∙ ap (λ b. release_stream id t.lost_packets b)
              (ap (λ m. release_stream id m (get_or_create_send_stream id t).1.bytes_in_flight) c.0
                ∙ ap (λ b. release_stream id t.sent_packets b) c.2),
    )

-- A flush takes a stream's lost packets off the bytes in flight a second time: if the lengths of the
-- packets that were sent and are neither acknowledged nor lost add up to the bytes in flight, then after
-- `flush_stream` the bytes in flight fall short of them, modulo 2 ^ 64, by the lengths of the lost
-- packets of that stream. So the accounts are kept if the stream has no lost packets, and broken
-- if their lengths do not add up to 0 modulo 2 ^ 64.
pub flush_stream-shortfall :
    (id n : ℕ) (t : Transport)
    → n ≤ 2 ^ 64
    → Accounted n t
    → let u = flush_stream id t in
      ((u.bytes_in_flight + stream_length id t.lost_packets) % 2 ^ 64
        ≡ total packet_length u.sent_packets % 2 ^ 64)
      × (stream_length id t.lost_packets ≡ 0
          → u.bytes_in_flight ≡ total packet_length u.sent_packets % 2 ^ 64)
      × (stream_length id t.lost_packets % 2 ^ 64 ≢ 0
          → u.bytes_in_flight ≢ total packet_length u.sent_packets % 2 ^ 64)
flush_stream-shortfall id n t le b =
    let k = b.kept le in
    let u = flush_stream-lists id t in
    let a = release_stream-length id t.sent_packets t.bytes_in_flight b.bound k.fit in
    let c =
      release_stream-length id t.lost_packets (release_stream id t.sent_packets t.bytes_in_flight)
        a.0 b.lost_fit in
    let s = total-without_stream id t.sent_packets in
    rw (u.0, u.1)
      (
        omega (arith, k.balance, a.1, c.1, s),
        λ z. omega (arith, k.balance, a.1, c.1, c.0, s, z),
        λ ne q. ne (omega (arith, k.balance, a.1, c.1, c.0, s, q)),
      )
