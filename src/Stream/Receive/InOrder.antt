-- ===== src/Stream/Receive/InOrder.antt =====
-- What the application is given: the bytes of a stream in order, without gaps and without repetition.
use open_weaver.Base.{
  ℕ, ◌+◌, ◌-◌, ◌^◌, ◌≤◌, ◌<◌, ◌≡◌, refl, ap, subst, ◌∙◌, ◌⊎◌, inl, inr, Bool, true, false, ◌||◌,
  none, some, List, ◌∷◌, ◌++◌, arith, ltb, leb, if◌then◌else◌, leb→le, ==_refl, Bool-cases,
  Option-cases, add64, sub64, length, take, drop, length-append, take-append_length,
}
use mathlib.Core.List.{append-nil}
use open_weaver.Dict.{
  Dict, lookup, try_emplace, erase, lookup-assign, lookup-erase, lookup-try_emplace,
}
use open_weaver.Stream.Types.{
  Transport, Env, delivers, RecvStream, RecvPacketInfo, new_recv_stream, all_recv, established,
}
use open_weaver.Stream.Handshake.{ids_match}
use open_weaver.Stream.Receive.{
  did_recv_data, is_done, drain, Drained, deliver_now, queue_packet, note_packet, note_fin,
  recv_on_stream, put_recv_stream, check_read, check_finish, all_recv, is_done,
}
use open_weaver.Stream.Receive.Slice.{
  slice, length-slice, delivered, Carries, AllCarry, assign-AllCarry,
}
use open_weaver.Stream.Receive.Drain.{InOrder, new_bytes, extend-InOrder, drain-InOrder}

module _ (f : ℕ → ℕ) (e : Env) (id : ℕ)
    (accepts : (o : ℕ) (bytes : List ℕ) → e.accepts id o bytes ≡ true) where
  -- What a step leaves of stream `id`, which was read up to `offset`: the delegate got a stretch of the
  -- stream from there on, and the stream is read up to its end, or is gone.
  pub record Continues (offset : ℕ) (t u : Transport) : Type 0 where
    pub got : ℕ
    pub order : delivered id u.out ≡ delivered id t.out ++ slice f offset got
    pub rest :
        (lookup id u.recv_streams ≡ none)
        ⊎ ((s : RecvStream) × (lookup id u.recv_streams ≡ some s)
            × (s.read_offset ≡ offset + got)
            × AllCarry f s.recv_packets)

  -- The stream after a drain that the delegate accepted.
  unfoldable pub put_drained : RecvStream → Drained → Transport → Transport
  put_drained s d t =
      let s' = record s { read_offset = d.read_offset; recv_packets = d.packets } in
      let t' = record t { out = d.out } in
      if check_read s'
      then record t' { recv_streams = erase id t'.recv_streams }
      else put_recv_stream id s' t'

  put_drained-Continues :
      (offset : ℕ) (s : RecvStream) (d : Drained) (t : Transport)
      → InOrder f e id accepts offset t.out d
      → Continues offset t (put_drained s d t)
  unfolding put_drained
  put_drained-Continues offset s d t h =
      elim (Bool-cases
        (check_read (record s { read_offset = d.read_offset; recv_packets = d.packets }))) [
          | inl done ↦ rw done (record {
            got = d.read_offset - offset;
            order = h.order;
            rest = inl (rw (lookup-erase id id t.recv_streams, ==_refl id));
          })
          | inr more ↦ rw more (record {
            got = d.read_offset - offset;
            order = h.order;
            rest = inr (
              record s { read_offset = d.read_offset; recv_packets = d.packets },
              rw (lookup-assign id id, ==_refl id),
              omega (arith, h.forward),
              h.left,
            );
          })
        ]

  pub deliver_now-put_drained :
      (offset len : ℕ) (p : List ℕ) (s : RecvStream) (t : Transport) (d : Drained)
      → d
        ≡ drain e id
            (add64 offset len)
            s.recv_packets
            (delivers (drop (sub64 s.read_offset offset) p) id ∷ t.out)
      → d.accepted ≡ true
      → deliver_now e id offset len p s t ≡ put_drained s d t
  unfolding deliver_now put_drained
  deliver_now-put_drained offset len p s t d q a = rw (accepts, ← q, a)

  deliver_now-Continues :
      (offset len : ℕ) (p : List ℕ) (s : RecvStream) (t : Transport)
      → AllCarry f s.recv_packets
      → p ≡ slice f offset len
      → offset ≤ s.read_offset
      → s.read_offset < offset + len
      → offset + len < 2 ^ 64
      → Continues s.read_offset t (deliver_now e id offset len p s t)
  deliver_now-Continues offset len p s t c b le lt w =
      let wrap : add64 offset len ≡ offset + len = omega arith in
      let info : RecvPacketInfo = record {
        recv_time = 0;
        offset = offset;
        length = len;
        packet = p;
      } in
      let bytes =
        new_bytes f e id accepts info s.read_offset (record { bytes = b; fits = w }) le lt in
      let d =
        drain e id (offset + len) s.recv_packets
          (delivers (drop (sub64 s.read_offset offset) p) id ∷ t.out) in
      let h =
        extend-InOrder f e id accepts s.read_offset (offset + len) _ t.out d (omega arith) bytes
          (drain-InOrder f e id accepts (offset + len) s.recv_packets _ w c) in
      rw (deliver_now-put_drained offset len p s t d (rw wrap) h.all_accepted)
        (put_drained-Continues s.read_offset s d t h)

  try_emplace-AllCarry :
      (p : RecvPacketInfo) (m : Dict RecvPacketInfo) (k : ℕ)
      → Carries f p
      → AllCarry f m
      → AllCarry f (try_emplace k p m)
  unfolding try_emplace
  try_emplace-AllCarry p m k c h = elim (Option-cases (lookup k m)) [
    | inl fresh ↦ rw (fresh, try_emplace) (assign-AllCarry p m k c h)
    | inr (q, old) ↦ rw (old, try_emplace) h
  ]

  queue_packet-Continues :
      (offset len : ℕ) (p : List ℕ) (s : RecvStream) (t : Transport)
      → AllCarry f s.recv_packets
      → p ≡ slice f offset len
      → offset + len < 2 ^ 64
      → Continues s.read_offset t (queue_packet e id offset len p s t)
  unfolding queue_packet slice
  queue_packet-Continues offset len p s t c b w =
      let info : RecvPacketInfo = record {
        recv_time = e.now;
        offset = offset;
        length = len;
        packet = p;
      } in
      let s' = record s { recv_packets = try_emplace offset info s.recv_packets } in
      let s'' = if check_finish s' then record s' { state = all_recv } else s' in
      record {
        got = 0;
        order = rw append-nil;
        rest = inr (
          s'',
          rw (lookup-assign id id, ==_refl id),
          ground arith,
          ground (
            arith,
            try_emplace-AllCarry info s.recv_packets offset (record { bytes = b; fits = w }) c,
          ),
        );
      }

  -- A packet that does not reach behind the read offset leaves everything.
  stay-Continues :
      (s : RecvStream) (t : Transport)
      → AllCarry f s.recv_packets
      → Continues s.read_offset t (put_recv_stream id s t)
  unfolding slice
  stay-Continues s t c = record {
    got = 0;
    order = rw append-nil;
    rest = inr (s, rw (lookup-assign id id, ==_refl id), omega arith, c);
  }

  pub note_packet-out : (n : ℕ) (t : Transport) → (note_packet n t).out ≡ t.out
  unfolding note_packet
  note_packet-out n t = ground arith

  note_packet-streams : (n : ℕ) (t : Transport) → (note_packet n t).recv_streams ≡ t.recv_streams
  unfolding note_packet
  note_packet-streams n t = ground arith

  pub note_fin-same :
      (fin : Bool) (offset len : ℕ) (s : RecvStream)
      → ((note_fin fin offset len s).read_offset ≡ s.read_offset)
        × ((note_fin fin offset len s).recv_packets ≡ s.recv_packets)
  unfolding note_fin
  note_fin-same fin offset len s = (ground arith, ground arith)

  -- The stream that a packet for `id` finds.
  abbrev pub found : Transport → RecvStream
  found t = elim (lookup id t.recv_streams) as (λ _. RecvStream) [
    | none ↦ new_recv_stream
    | some s ↦ s
  ]

  from_out :
      (offset : ℕ) (t t' u : Transport)
      → t'.out ≡ t.out
      → Continues offset t' u
      → Continues offset t u
  from_out offset t t' u q h = record {
    got = h.got;
    order = h.order ∙ ap (λ l. delivered id l ++ slice f offset h.got) q;
    rest = h.rest;
  }

  same_streams :
      (offset : ℕ) (t u u' : Transport)
      → u'.out ≡ u.out
      → u'.recv_streams ≡ u.recv_streams
      → Continues offset t u
      → Continues offset t u'
  same_streams offset t u u' q r h = record {
    got = h.got;
    order = rw q h.order;
    rest = rw r h.rest;
  }

  untouched-Continues :
      (t : Transport)
      → AllCarry f (found t).recv_packets
      → Continues
          (found t).read_offset
          t
          (record t { recv_streams = try_emplace id new_recv_stream t.recv_streams })
  unfolding slice try_emplace
  untouched-Continues t c = record {
    got = 0;
    order = rw append-nil;
    rest = inr (found t, lookup-try_emplace id new_recv_stream t.recv_streams, omega arith, c);
  }

  -- The three ways a packet of new bytes goes on.
  place-Continues :
      (n offset len : ℕ) (p : List ℕ) (s : RecvStream) (t : Transport)
      → AllCarry f s.recv_packets
      → p ≡ slice f offset len
      → offset + len < 2 ^ 64
      → let t2 = note_packet n (put_recv_stream id s t) in
        Continues s.read_offset t (
          if leb (add64 offset len) s.read_offset
          then t2
          else if leb offset s.read_offset
          then deliver_now e id offset len p s t2
          else queue_packet e id offset len p s t2)
  place-Continues n offset len p s t c b w =
      let t1 = put_recv_stream id s t in
      let t2 = note_packet n t1 in
      let out2 : t2.out ≡ t.out = note_packet-out n t1 in
      let wrap : add64 offset len ≡ offset + len = omega arith in
      elim (Bool-cases (leb (add64 offset len) s.read_offset)) [
        | inl past ↦ rw past (
            same_streams s.read_offset t t1 t2 out2 (note_packet-streams n t1)
              (stay-Continues s t c))
        | inr new ↦ elim (Bool-cases (leb offset s.read_offset)) [
          | inl here ↦
              rw (new, here)
                (from_out s.read_offset t t2 _ out2 (
                  deliver_now-Continues offset len p s t2 c b (leb→le _ _ here)
                    (let h = rw wrap at new in ground arith) w))
          | inr ahead ↦
              rw (new, ahead)
                (from_out s.read_offset t t2 _ out2
                  (queue_packet-Continues offset len p s t2 c b w))
        ]
      ]

  recv_on_stream-Continues :
      (fin : Bool) (n offset len : ℕ) (payload trailer : List ℕ) (t : Transport)
      → AllCarry f (found t).recv_packets
      → payload ≡ slice f offset len ++ trailer
      → length trailer ≡ 28
      → offset + len < 2 ^ 64
      → Continues (found t).read_offset t (recv_on_stream e fin n id offset len payload t)
  unfolding recv_on_stream
  recv_on_stream-Continues fin n offset len payload trailer t c b z w =
      let s1 = note_fin fin offset len (found t) in
      let same = note_fin-same fin offset len (found t) in
      let t1 : Transport = record t {
        recv_streams = try_emplace id new_recv_stream t.recv_streams;
      } in
      let c1 : AllCarry f s1.recv_packets = rw (same.1) c in
      let p : take (length payload - 28) payload ≡ slice f offset len =
        rw (b, length-append, z, length-slice)
          (take-append_length (slice f offset len) trailer _
            (length-slice f offset len ∙ omega arith)) in
      let whole : length (take (length payload - 28) payload) ≡ len =
        rw p (length-slice f offset len) in
      elim (Bool-cases (is_done (found t).state || (found t).wait_flush)) [
        | inl shut ↦ rw shut (untouched-Continues t c)
        | inr ready ↦
            rw (ready, whole, ==_refl len)
              (subst
                (λ o. Continues o t (
                  if leb (add64 offset len) s1.read_offset
                  then note_packet n (put_recv_stream id s1 t1)
                  else if leb offset s1.read_offset
                  then deliver_now e id offset len (take (length payload - 28) payload) s1
                      (note_packet n (put_recv_stream id s1 t1))
                  else queue_packet e id offset len (take (length payload - 28) payload) s1
                      (note_packet n (put_recv_stream id s1 t1))))
                same.0
                (from_out s1.read_offset t t1 _ refl (place-Continues n offset len _ s1 t1 c1 p w)))
      ]

  pub established-recv :
      (fin : Bool) (n offset len : ℕ) (payload : List ℕ) (t : Transport)
      → t.conn_state ≡ established
      → ltb (length payload) 28 ≡ false
      → did_recv_data e fin t.src_conn_id t.dst_conn_id n id offset len payload t
        ≡ recv_on_stream e fin n id offset len payload t
  unfolding did_recv_data
  established-recv fin n offset len payload t est long =
      let same : ids_match t.src_conn_id t.dst_conn_id t ≡ true = ground arith in
      simp (long, same, est)

  -- The next bytes of the stream, in order: an established transport that holds of stream `id` only
  -- packets of the byte sequence `f`, and gets a DATA packet with `len` bytes of `f` at `offset`, whatever
  -- the offset is and whether or not the packet is new, gives the delegate, which accepts all, a stretch of
  -- `f` that starts where the stream was read up to. Then the stream is gone, or it is read up to the end
  -- of that stretch and still holds only packets of `f`.
  pub did_recv_data-Continues :
      (fin : Bool) (n offset len : ℕ) (payload trailer : List ℕ) (t : Transport)
      → t.conn_state ≡ established
      → AllCarry f (found t).recv_packets
      → payload ≡ slice f offset len ++ trailer
      → length trailer ≡ 28
      → offset + len < 2 ^ 64
      → Continues
          (found t).read_offset
          t
          (did_recv_data e fin t.src_conn_id t.dst_conn_id n id offset len payload t)
  did_recv_data-Continues fin n offset len payload trailer t est c b z w =
      let long : ltb (length payload) 28 ≡ false = rw (b, length-append, z) (ground arith) in
      rw (established-recv fin n offset len payload t est long)
        (recv_on_stream-Continues fin n offset len payload trailer t c b z w)
