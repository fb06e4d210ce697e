-- ===== src/Lpf/Transport.antt =====
-- lpf/include/marlin/lpf/LpfTransport.hpp: the transport that frames messages. The transport below it is
-- a template parameter and the delegate is the application: both are parameters with a state of their
-- own. An `int` result, which is 0 or below, is the native number of its absolute value.
pub mod Ids
pub mod Exhausted
pub mod Frames
pub mod Memory
mod Tests
use open_weaver.Base.{
  ℕ, zero, suc, ◌+◌, ◌-◌, ◌*◌, ◌/◌, ◌%◌, ◌^◌, ◌≤◌, ◌<◌, min, max, ◌≡◌, refl, sym, ap, subst, ◌∙◌,
  ◌≢◌, ◌↔◌, ◌⊎◌, inl, inr, Bool, true, false, not, ◌&&◌, ◌||◌, Option, none, some, List, [], ◌∷◌,
  ◌++◌, map, arith, ltb, leb, ◌==◌, if◌then◌else◌, ltb→lt, lt→ltb, leb→le, ==_iff, ==_refl,
  Bool-cases, Option-cases, add64, sub64, length, take, drop, length-append, length-take,
  length-drop, take-append-drop, All, take_all, take-append_length, drop-append_length,
}
use open_weaver.Dict.{Dict, lookup, assign, erase}
use open_weaver.Core.Buffer.{Buffer, create, contents, write_unsafe, write_uint_be_unsafe}
use open_weaver.Lpf.Resume.{Result, Received, Step, ok, too_big, refused, reads_past}
use open_weaver.Lpf.Store.{StoreThenForwardBuffer, new_store, store_recv}
use open_weaver.Lpf.CutThrough.{CutThroughBuffer, CutThroughDelegate, new_cut_through, cut_recv}

-- The transport below.
pub record BaseTransport (T : Type 0) : Type 0 where
  pub send : List ℕ → (id : ℕ) → T → ℕ × T
  pub close : (reason : ℕ) → T → T
  pub flush_stream : (id : ℕ) → T → T
  pub skip_stream : (id : ℕ) → T → T
  pub is_internal : T → Bool

-- The application.
pub record Delegate (D : Type 0) : Type 0 where
  pub did_dial : D → D
  pub did_recv : List ℕ → D → ℕ × D
  pub did_send : List ℕ → D → D
  pub did_close : (reason : ℕ) → D → D
  pub cut_through_recv_start : (id length : ℕ) → D → D
  pub cut_through_recv_bytes : (id : ℕ) → List ℕ → D → ℕ × D
  pub cut_through_recv_end : (id : ℕ) → D → D
  pub cut_through_recv_flush : (id : ℕ) → D → D
  pub cut_through_recv_skip : (id : ℕ) → D → D

pub record LpfTransport (T : Type 0) : Type 0 where
  pub transport : T
  pub stf_buffers : Dict StoreThenForwardBuffer
  pub cut_through_buffers : Dict CutThroughBuffer
  pub cut_through_reserve_ids : List ℕ
  pub cut_through_used_ids : List ℕ
  -- Whether the transport manager holds it.
  pub registered : Bool

abbrev pub reserve_ids : List ℕ
reserve_ids = 10 ∷ 11 ∷ 12 ∷ 13 ∷ 14 ∷ 15 ∷ 16 ∷ 17 ∷ 18 ∷ 19 ∷ []

unfoldable pub new_lpf : {T : Type 0} → T → LpfTransport T
new_lpf t = record {
  transport = t;
  stf_buffers = [];
  cut_through_buffers = [];
  cut_through_reserve_ids = reserve_ids;
  cut_through_used_ids = [];
  registered = true;
}

-- The set of the used ids.
unfoldable pub member : ℕ → List ℕ → Bool
member k [] = false
member k (x ∷ xs) = if k == x then true else member k xs

unfoldable pub insert : ℕ → List ℕ → List ℕ
unfolding member
insert k xs = if member k xs then xs else k ∷ xs

unfoldable pub remove : ℕ → List ℕ → List ℕ
remove k [] = []
remove k (x ∷ xs) = if k == x then xs else x ∷ remove k xs

unfoldable pub zeros : ℕ → List ℕ
zeros zero = []
zeros (suc n) = 0 ∷ zeros n

-- The buffer of `send`: its length in 8 bytes, highest first, and the message. The memory of a new
-- buffer is zeros here; both writes cover it.
unfoldable pub frame : List ℕ → List ℕ
unfolding zeros create contents write_unsafe write_uint_be_unsafe
frame message =
    let n = length message in
    contents (write_unsafe (write_uint_be_unsafe 8 (create (zeros (n + 8)) (n + 8)) 0 n) 8 message)

-- The bytes of a length alone.
unfoldable pub length_frame : ℕ → List ℕ
unfolding zeros create contents write_uint_be_unsafe
length_frame n = contents (write_uint_be_unsafe 8 (create (zeros 8) 8) 0 n)

module _ {T : Type 0} (base : BaseTransport T) where
  -- `send`, on the stream 0.
  unfoldable pub send_framed : List ℕ → LpfTransport T → ℕ × LpfTransport T
  unfolding frame
  send_framed message t =
      let (res, t') = base.send (frame message) 0 t.transport in (res, record t { transport = t' })

  unfoldable pub close_lpf : (reason : ℕ) → LpfTransport T → LpfTransport T
  close_lpf reason t = record t { transport = base.close reason t.transport }

  -- `cut_through_send_start` with the ids that are free.
  unfoldable pub start_on : List ℕ → (length : ℕ) → LpfTransport T → ℕ × LpfTransport T
  unfolding insert length_frame
  start_on [] length t = (0, t)
  start_on (id ∷ ids) length t =
      let (res, t') = base.send (length_frame length) id t.transport in
      (
        if res == 0 then id else 0,
        record t {
          cut_through_reserve_ids = ids;
          cut_through_used_ids = insert id t.cut_through_used_ids;
          transport = t';
        },
      )

  unfoldable pub cut_through_send_start : (length : ℕ) → LpfTransport T → ℕ × LpfTransport T
  unfolding start_on
  cut_through_send_start length t = start_on t.cut_through_reserve_ids length t

  unfoldable pub cut_through_send_bytes : (id : ℕ) → List ℕ → LpfTransport T → ℕ × LpfTransport T
  cut_through_send_bytes id bytes t =
      let (res, t') = base.send bytes id t.transport in (res, record t { transport = t' })

  unfoldable pub cut_through_send_end : (id : ℕ) → LpfTransport T → LpfTransport T
  unfolding member remove
  cut_through_send_end id t =
      if member id t.cut_through_used_ids
      then record t {
        cut_through_used_ids = remove id t.cut_through_used_ids;
        cut_through_reserve_ids = t.cut_through_reserve_ids ++ (id ∷ []);
      }
      else t

  unfoldable pub cut_through_send_flush : (id : ℕ) → LpfTransport T → LpfTransport T
  cut_through_send_flush id t = record t { transport = base.flush_stream id t.transport }

  unfoldable pub cut_through_send_skip : (id : ℕ) → LpfTransport T → LpfTransport T
  cut_through_send_skip id t = record t { transport = base.skip_stream id t.transport }

  unfoldable pub cut_through_send : List ℕ → LpfTransport T → ℕ × LpfTransport T
  unfolding send_framed cut_through_send_start cut_through_send_bytes cut_through_send_end
  cut_through_send message t =
      let (id, t1) = cut_through_send_start (length message) t in
      if id == 0
      then send_framed message t1
      else let (res, t2) = cut_through_send_bytes id message t1 in
        if not (res == 0) then (res, t2) else (0, cut_through_send_end id t2)

  -- `did_recv_flush_conf`
  unfoldable pub on_flush_conf : (id : ℕ) → LpfTransport T → LpfTransport T
  unfolding cut_through_send_end
  on_flush_conf id t = cut_through_send_end id t

  module _ {D : Type 0} (app : Delegate D) where
    abbrev pub did_recv_stf_message : (id : ℕ) → List ℕ → D → Bool × D
    did_recv_stf_message id message d = let (res, d') = app.did_recv message d in (res == 0, d')

    abbrev pub cut_through_delegate : CutThroughDelegate D
    cut_through_delegate = record {
      cut_through_recv_start = app.cut_through_recv_start;
      cut_through_recv_bytes =
          λ id bytes d. let (res, d') = app.cut_through_recv_bytes id bytes d in (res == 0, d');
      cut_through_recv_end = app.cut_through_recv_end;
    }

    -- What `did_recv` does with the result of a buffer: -1 closes the connection. The code 2 is none of the
    -- source's: it stands for a read behind the bytes that came in.
    unfoldable pub recv_result : Result → LpfTransport T → ℕ × LpfTransport T
    unfolding close_lpf
    recv_result ok t = (0, t)
    recv_result too_big t = (1, close_lpf 0 t)
    recv_result refused t = (1, t)
    recv_result reads_past t = (2, t)

    unfoldable pub recv_cut_through :
        List ℕ → (stream_id : ℕ) → LpfTransport T → D → (ℕ × LpfTransport T) × D
    unfolding lookup assign cut_recv recv_result
    recv_cut_through bytes stream_id t d =
        let rbuf : CutThroughBuffer = elim (lookup stream_id t.cut_through_buffers) [
          | none ↦ new_cut_through stream_id
          | some b ↦ b
        ] in
        let r = cut_recv cut_through_delegate rbuf bytes d in
        let t1 = record t {
          cut_through_buffers = assign stream_id r.buffer t.cut_through_buffers;
        } in
        (recv_result r.res t1, r.delegate)

    unfoldable pub recv_stored :
        List ℕ → (stream_id : ℕ) → LpfTransport T → D → (ℕ × LpfTransport T) × D
    unfolding lookup assign store_recv recv_result
    recv_stored bytes stream_id t d =
        let stfbuf : StoreThenForwardBuffer = elim (lookup stream_id t.stf_buffers) [
          | none ↦ new_store stream_id
          | some b ↦ b
        ] in
        let r = store_recv did_recv_stf_message stfbuf bytes d in
        let t1 = record t { stf_buffers = assign stream_id r.buffer t.stf_buffers } in
        (recv_result r.res t1, r.delegate)

    -- `did_recv`; `should_cut_through` is a template parameter.
    unfoldable pub lpf_recv :
        (should_cut_through : Bool)
        → List ℕ
        → (stream_id : ℕ) → LpfTransport T
        → D
        → (ℕ × LpfTransport T) × D
    unfolding recv_cut_through recv_stored
    lpf_recv should_cut_through bytes stream_id t d =
        if should_cut_through
          && (base.is_internal t.transport && (leb 10 stream_id && ltb stream_id 20))
        then recv_cut_through bytes stream_id t d
        else recv_stored bytes stream_id t d

    -- `did_recv_flush_stream`
    unfoldable pub on_flush_stream : (id : ℕ) → LpfTransport T → D → LpfTransport T × D
    unfolding erase
    on_flush_stream id t d = (
      record t { cut_through_buffers = erase id t.cut_through_buffers },
      app.cut_through_recv_flush id d,
    )

    -- `did_recv_skip_stream`
    unfoldable pub on_skip_stream : (id : ℕ) → LpfTransport T → D → LpfTransport T × D
    on_skip_stream id t d = (t, app.cut_through_recv_skip id d)

    -- `did_send`, on a buffer that `send` made.
    unfoldable pub on_send : List ℕ → D → D
    on_send bytes d = app.did_send (drop 8 bytes) d

    unfoldable pub on_dial : D → D
    on_dial d = app.did_dial d

    -- `did_close`
    unfoldable pub on_base_close : (reason : ℕ) → LpfTransport T → D → LpfTransport T × D
    on_base_close reason t d = (record t { registered = false }, app.did_close reason d)
