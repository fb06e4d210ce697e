-- ===== src/Stream/Receive/Again.antt =====
-- What a stream that was read to its end does with a late duplicate.
use open_weaver.Base.{
  ℕ, ◌-◌, ◌^◌, ◌<◌, ◌≡◌, refl, sym, ap, ◌∙◌, true, false, none, List, ◌∷◌, ◌++◌, arith, ltb, leb,
  ==_refl, add64, length, take, length-append, take-append_length,
}
use mathlib.Core.Path.{ap₂}
use mathlib.Core.List.{append_assoc}
use open_weaver.Dict.{lookup, try_emplace, erase, lookup-erase}
use open_weaver.Stream.Types.{
  Transport, Env, delivers, RecvStream, new_recv_stream, established, size_known,
}
use open_weaver.Stream.Receive.{
  did_recv_data, recv_on_stream, deliver_now, drain, note_fin, note_packet, check_read,
  put_recv_stream,
}
use open_weaver.Stream.Receive.Slice.{delivered}
use open_weaver.Stream.Receive.InOrder.{established-recv}

-- A stream of `len` bytes that is known in its size.
abbrev sized : ℕ → RecvStream
sized len = record new_recv_stream { size = len; state = size_known }

module _ (e : Env) (id : ℕ) (accepts : (o : ℕ) (bytes : List ℕ) → e.accepts id o bytes ≡ true) where
  -- A packet that holds the whole of a stream is delivered, and the stream is gone.
  deliver_all :
      (bytes : List ℕ) (t : Transport)
      → length bytes < 2 ^ 64
      → deliver_now e id 0 (length bytes) bytes (sized (length bytes)) t
        ≡ record t { out = delivers bytes id ∷ t.out; recv_streams = erase id t.recv_streams }
  unfolding deliver_now drain check_read
  deliver_all bytes t w =
      let wrap : add64 0 (length bytes) ≡ length bytes = omega arith in
      rw (accepts, wrap, ==_refl (length bytes)) refl

  -- What the transport is after a packet with the fin bit that holds the whole of a new stream.
  record ReadWhole (bytes : List ℕ) (t u : Transport) : Type 0 where
    state : u.conn_state ≡ t.conn_state
    src : u.src_conn_id ≡ t.src_conn_id
    dst : u.dst_conn_id ≡ t.dst_conn_id
    gone : lookup id u.recv_streams ≡ none
    given : delivered id u.out ≡ delivered id t.out ++ bytes

  note_packet-same :
      (n : ℕ) (t : Transport)
      → let u = note_packet n t in
        (u.conn_state ≡ t.conn_state)
        × (u.src_conn_id ≡ t.src_conn_id)
        × (u.dst_conn_id ≡ t.dst_conn_id)
        × (u.out ≡ t.out)
  unfolding note_packet
  note_packet-same n t = ground arith

  recv_on_stream-ReadWhole :
      (n : ℕ) (bytes trailer : List ℕ) (t : Transport)
      → 0 < length bytes
      → length bytes < 2 ^ 64
      → length trailer ≡ 28
      → lookup id t.recv_streams ≡ none
      → ReadWhole bytes t (recv_on_stream e true n id 0 (length bytes) (bytes ++ trailer) t)
  unfolding recv_on_stream note_fin delivered
  recv_on_stream-ReadWhole n bytes trailer t pos w z absent =
      let whole : take (length (bytes ++ trailer) - 28) (bytes ++ trailer) ≡ bytes =
        rw (length-append, z) (take-append_length bytes trailer _ (omega arith)) in
      let wrap : add64 0 (length bytes) ≡ length bytes = omega arith in
      let new : leb (length bytes) 0 ≡ false = ground arith in
      let t1 : Transport = record t {
        recv_streams = try_emplace id new_recv_stream t.recv_streams;
      } in
      let t2 = note_packet n (put_recv_stream id (sized (length bytes)) t1) in
      let c = note_packet-same n (put_recv_stream id (sized (length bytes)) t1) in
      rw (recv_on_stream, absent, whole, ==_refl (length bytes), wrap, new)
        (rw (deliver_all bytes t2 w) (record {
          state = c.0;
          src = c.1;
          dst = c.2;
          gone = lookup-erase id id t2.recv_streams ∙ rw (==_refl id) refl;
          given = rw (==_refl id, c.3) refl;
        }))

  -- A duplicate is delivered again: if an established transport has no stream `id`, and the same DATA
  -- packet with the fin bit, which holds all the bytes of that stream and at least one, comes twice, then
  -- the delegate, which accepts all, gets these bytes twice. The stream was erased when it had been read
  -- to its end, and the second packet opens it anew.
  pub did_recv_data-duplicate :
      (n : ℕ) (bytes trailer : List ℕ) (t : Transport)
      → t.conn_state ≡ established
      → 0 < length bytes
      → length bytes < 2 ^ 64
      → length trailer ≡ 28
      → lookup id t.recv_streams ≡ none
      → let again = λ (u : Transport).
        did_recv_data e true t.src_conn_id t.dst_conn_id n id 0
          (length bytes)
          (bytes ++ trailer)
          u in
        delivered id (again (again t)).out ≡ delivered id t.out ++ (bytes ++ bytes)
  did_recv_data-duplicate n bytes trailer t est pos w z absent =
      let long : ltb (length (bytes ++ trailer)) 28 ≡ false =
        rw (length-append, z) (ground arith) in
      let u = recv_on_stream e true n id 0 (length bytes) (bytes ++ trailer) t in
      let a = recv_on_stream-ReadWhole n bytes trailer t pos w z absent in
      let first =
        established-recv (λ o. o) e id accepts true n 0 (length bytes) (bytes ++ trailer) t est
          long in
      let b = recv_on_stream-ReadWhole n bytes trailer u pos w z a.gone in
      let second : did_recv_data e true t.src_conn_id t.dst_conn_id n id 0 (length bytes)
            (bytes ++ trailer) u
          ≡ recv_on_stream e true n id 0 (length bytes) (bytes ++ trailer) u =
        ap₂ (λ src dst. did_recv_data e true src dst n id 0 (length bytes) (bytes ++ trailer) u)
          (sym a.src) (sym a.dst)
        ∙ established-recv (λ o. o) e id accepts true n 0 (length bytes) (bytes ++ trailer) u
            (a.state ∙ est) long in
      let again = λ (v : Transport).
        did_recv_data e true t.src_conn_id t.dst_conn_id n id 0 (length bytes) (bytes ++ trailer)
          v in
      ap (λ v. delivered id v.out) (ap again first ∙ second)
      ∙ b.given
      ∙ ap (λ l. l ++ bytes) a.given
      ∙ append_assoc (delivered id t.out) bytes bytes
