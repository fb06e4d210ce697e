-- ===== src/Stream/Receive/Progress.antt =====
-- A packet with new bytes brings the application forward.
use open_weaver.Base.{
  ℕ, ◌+◌, ◌-◌, ◌^◌, ◌≤◌, ◌<◌, ◌≡◌, refl, ap, ◌∙◌, Bool, true, false, ◌||◌, List, ◌∷◌, ◌++◌, arith,
  ltb, leb, ==_refl, add64, sub64, length, take, drop, length-append, take-append_length,
}
use open_weaver.Dict.{try_emplace}
use open_weaver.Stream.Types.{
  Transport, Env, delivers, RecvStream, RecvPacketInfo, new_recv_stream, established,
}
use open_weaver.Stream.Receive.{
  did_recv_data, is_done, drain, Drained, deliver_now, note_packet, note_fin, recv_on_stream,
  put_recv_stream, is_done,
}
use open_weaver.Stream.Receive.Slice.{slice, length-slice, delivered, AllCarry}
use open_weaver.Stream.Receive.Drain.{new_bytes, extend-InOrder, drain-InOrder}
use open_weaver.Stream.Receive.InOrder.{
  put_drained, deliver_now-put_drained, note_fin-same, note_packet-out, established-recv, found,
}

-- From `t` to `u` stream `id` gives the delegate bytes of `f` from an offset on, at least up to `last`.
abbrev pub Reads : (f : ℕ → ℕ) (id offset last : ℕ) (t u : Transport) → Type 0
Reads f id offset last t u =
    (got : ℕ) × (delivered id u.out ≡ delivered id t.out ++ slice f offset got)
    × (last - offset ≤ got)

module _ (f : ℕ → ℕ) (e : Env) (id : ℕ)
    (accepts : (o : ℕ) (bytes : List ℕ) → e.accepts id o bytes ≡ true) where
  put_drained-out :
      (s : RecvStream) (d : Drained) (t : Transport)
      → (put_drained f e id accepts s d t).out ≡ d.out
  unfolding put_drained
  put_drained-out s d t = ground arith

  deliver_now-forward :
      (offset len : ℕ) (p : List ℕ) (s : RecvStream) (t : Transport)
      → AllCarry f s.recv_packets
      → p ≡ slice f offset len
      → offset ≤ s.read_offset
      → s.read_offset < offset + len
      → offset + len < 2 ^ 64
      → Reads f id s.read_offset (offset + len) t (deliver_now e id offset len p s t)
  deliver_now-forward offset len p s t c b le lt w =
      let wrap : add64 offset len ≡ offset + len = omega arith in
      let info : RecvPacketInfo = record {
        recv_time = 0;
        offset = offset;
        length = len;
        packet = p;
      } in
      let bytes =
        new_bytes f e id accepts info s.read_offset (record { bytes = b; fits = w }) le lt in
      let d =
        drain e id (offset + len) s.recv_packets
          (delivers (drop (sub64 s.read_offset offset) p) id ∷ t.out) in
      let later = drain-InOrder f e id accepts (offset + len) s.recv_packets _ w c in
      let h =
        extend-InOrder f e id accepts s.read_offset (offset + len) _ t.out d (omega arith) bytes
          later in
      let out : (deliver_now e id offset len p s t).out ≡ d.out =
        ap (λ (u : Transport). u.out)
          (deliver_now-put_drained f e id accepts offset len p s t d (rw (wrap) refl)
            h.all_accepted)
        ∙ put_drained-out s d t in
      (d.read_offset - s.read_offset, ap (delivered id) out ∙ h.order, omega (arith, later.forward))

  recv_on_stream-forward :
      (fin : Bool) (n offset len : ℕ) (payload trailer : List ℕ) (t : Transport)
      → AllCarry f (found f e id accepts t).recv_packets
      → payload ≡ slice f offset len ++ trailer
      → length trailer ≡ 28
      → offset + len < 2 ^ 64
      → (is_done (found f e id accepts t).state || (found f e id accepts t).wait_flush) ≡ false
      → offset ≤ (found f e id accepts t).read_offset
      → (found f e id accepts t).read_offset < offset + len
      → Reads f id
          (found f e id accepts t).read_offset
          (offset + len)
          t
          (recv_on_stream e fin n id offset len payload t)
  unfolding recv_on_stream
  recv_on_stream-forward fin n offset len payload trailer t c b z w ready le lt =
      let s = found f e id accepts t in
      let s1 = note_fin fin offset len s in
      let same = note_fin-same f e id accepts fin offset len s in
      let t1 : Transport = record t {
        recv_streams = try_emplace id new_recv_stream t.recv_streams;
      } in
      let t2 = note_packet n (put_recv_stream id s1 t1) in
      let p : take (length payload - 28) payload ≡ slice f offset len =
        rw (b, length-append, z, length-slice)
          (take-append_length (slice f offset len) trailer _
            (length-slice f offset len ∙ omega arith)) in
      let whole : length (take (length payload - 28) payload) ≡ len =
        rw p (length-slice f offset len) in
      let read : s1.read_offset ≡ s.read_offset = same.0 in
      let new : leb (add64 offset len) s1.read_offset ≡ false = ground (arith, read) in
      let here : leb offset s1.read_offset ≡ true = ground (arith, read) in
      let out : t2.out ≡ t.out = note_packet-out f e id accepts n (put_recv_stream id s1 t1) in
      let c1 : AllCarry f s1.recv_packets = rw (same.1) c in
      let d =
        deliver_now-forward offset len (take (length payload - 28) payload) s1 t2 c1 p
          (omega (arith, read)) (omega (arith, read)) w in
      let d' : Reads f id s.read_offset (offset + len) t
          (deliver_now e id offset len (take (length payload - 28) payload) s1 t2) =
        (
          d.0,
          d.1
              ∙ ap (λ l. delivered id l ++ slice f s1.read_offset d.0) out
              ∙ ap (λ o. delivered id t.out ++ slice f o d.0) read,
          omega (arith, d.2, read),
        ) in
      rw (ready, whole, ==_refl len) (rw (new, here) d')

  -- New bytes reach the application: if an established transport that holds of stream `id` only packets of
  -- the byte sequence `f` gets a DATA packet with `len` bytes of `f` at `offset`, which starts at or before
  -- the place where the stream was read up to and ends behind it, and the stream is neither received in
  -- full nor waits for a flush, then the delegate, which accepts all, gets bytes of `f`, exactly those from
  -- that place on and none twice, and at least up to the end of the packet.
  pub did_recv_data-forward :
      (fin : Bool) (n offset len : ℕ) (payload trailer : List ℕ) (t : Transport)
      → t.conn_state ≡ established
      → AllCarry f (found f e id accepts t).recv_packets
      → payload ≡ slice f offset len ++ trailer
      → length trailer ≡ 28
      → offset + len < 2 ^ 64
      → (is_done (found f e id accepts t).state || (found f e id accepts t).wait_flush) ≡ false
      → offset ≤ (found f e id accepts t).read_offset
      → (found f e id accepts t).read_offset < offset + len
      → Reads f id
          (found f e id accepts t).read_offset
          (offset + len)
          t
          (did_recv_data e fin t.src_conn_id t.dst_conn_id n id offset len payload t)
  did_recv_data-forward fin n offset len payload trailer t est c b z w ready le lt =
      let long : ltb (length payload) 28 ≡ false = rw (b, length-append, z) (ground arith) in
      rw (established-recv f e id accepts fin n offset len payload t est long)
        (recv_on_stream-forward fin n offset len payload trailer t c b z w ready le lt)
