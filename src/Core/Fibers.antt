-- ===== src/Core/Fibers.antt =====
-- core/include/marlin/core/fibers: the fibers that cut a stream of bytes into frames, by a length or by a
-- sentinel, each with the fiber that buffers a frame, as PubSubNode and Abci connect them. The tail call
-- of `leftover` at the source is the reply of a call, and the source calls again with it.
pub mod Length
pub mod Sentinel
mod Tests
use open_weaver.Base.{
  ℕ, zero, suc, ◌+◌, ◌-◌, ◌*◌, ◌/◌, ◌%◌, ◌^◌, ◌≤◌, ◌<◌, min, max, ◌≡◌, refl, sym, ap, subst, ◌∙◌,
  ◌≢◌, ◌↔◌, ◌⊎◌, inl, inr, Bool, true, false, not, ◌&&◌, ◌||◌, Option, none, some, List, [], ◌∷◌,
  ◌++◌, map, arith, ltb, leb, ◌==◌, if◌then◌else◌, ltb→lt, lt→ltb, leb→le, ==_iff, ==_refl,
  Bool-cases, Option-cases, add64, sub64, length, take, drop, length-append, length-take,
  length-drop, take-append-drop, All, take_all, take-append_length, drop-append_length,
}
use open_weaver.Core.Buffer.{
  Buffer, size, contents, create, moved_from, write_unsafe, expand, truncate_unsafe,
}

unfoldable pub new_memory : ℕ → List ℕ
new_memory zero = []
new_memory (suc n) = 0 ∷ new_memory n

-- A result, 0 or an error, or bytes that are left over.
pub data Reply : Type 0 where
  result : (code : ℕ) → Reply
  leftover : List ℕ → Reply

-- LengthFramingFiber and LengthBufferFiber.
pub record LengthFiber : Type 0 where
  pub bytes_remaining : ℕ
  pub buf : Buffer

-- `reset` of both; the memory of a new buffer is zeros here.
unfoldable pub reset_length : ℕ → LengthFiber
unfolding create new_memory
reset_length n = record { bytes_remaining = n; buf = create (new_memory n) n }

-- `did_recv` of LengthBufferFiber.
unfoldable pub length_buffer : Buffer → List ℕ → (bytes_remaining : ℕ) → Buffer
unfolding write_unsafe
length_buffer buf bytes bytes_remaining =
    write_unsafe buf (sub64 (sub64 (size buf) (length bytes)) bytes_remaining) bytes

-- The application is given a frame, and may reset the fiber while it is called.
abbrev pub App : Type 0 → Type 0
App D = List ℕ → D → D × Option ℕ

module _ {D : Type 0} (app : App D) where
  -- `did_recv_frame` of LengthBufferFiber; the buffer is moved out.
  unfoldable pub length_frame_done : LengthFiber → D → LengthFiber × D
  unfolding contents reset_length
  length_frame_done s d =
      let (d', again) = app (contents s.buf) d in
      (elim again [ none ↦ record s { buf = moved_from } | some n ↦ reset_length n ], d')

  -- `did_recv` of LengthFramingFiber.
  unfoldable pub length_recv : LengthFiber → List ℕ → D → (LengthFiber × D) × Reply
  unfolding length_buffer length_frame_done
  length_recv s bytes d =
      if ltb (length bytes) s.bytes_remaining
      then (let n = s.bytes_remaining - length bytes in
          ((record s { bytes_remaining = n; buf = length_buffer s.buf bytes n }, d), result 0))
      else let num_leftover = length bytes - s.bytes_remaining in
        let rest = drop s.bytes_remaining bytes in
        let s1 = record s {
          bytes_remaining = 0;
          buf = length_buffer s.buf (take s.bytes_remaining bytes) 0;
        } in
        (length_frame_done s1 d, if ltb 0 num_leftover then leftover rest else result 0)

-- SentinelFramingFiber keeps no state; this is the buffer of SentinelBufferFiber after `reset`.
unfoldable pub reset_sentinel : (max_len : ℕ) → Buffer
unfolding create new_memory
reset_sentinel max_len = truncate_unsafe (create (new_memory max_len) max_len) max_len

-- `did_recv` of SentinelBufferFiber.
unfoldable pub sentinel_buffer : Buffer → List ℕ → Buffer × ℕ
unfolding expand write_unsafe
sentinel_buffer buf bytes =
    let idx = size buf in
    let (buf', room) = expand buf (length bytes) in
    if not room then (buf, 1) else (write_unsafe buf' idx bytes, 0)

-- `std::find`: the place of the first sentinel, or the number of bytes.
unfoldable pub find : (sentinel : ℕ) → List ℕ → ℕ
find sentinel [] = 0
find sentinel (b ∷ bytes) = if b == sentinel then 0 else suc (find sentinel bytes)

module _ {D : Type 0} (app : App D) (sentinel : ℕ) where
  -- `did_recv_sentinel` of SentinelBufferFiber.
  unfoldable pub sentinel_done : Buffer → D → Buffer × D
  unfolding contents reset_sentinel
  sentinel_done buf d =
      let (d', again) = app (contents buf) d in
      (elim again [ none ↦ moved_from | some n ↦ reset_sentinel n ], d')

  -- `did_recv` of SentinelFramingFiber.
  unfoldable pub sentinel_recv : Buffer → List ℕ → D → (Buffer × D) × Reply
  unfolding find sentinel_buffer sentinel_done
  sentinel_recv buf bytes d =
      let idx = find sentinel bytes in
      if idx == length bytes
      then (let (buf', code) = sentinel_buffer buf bytes in ((buf', d), result code))
      else let (buf', code) = sentinel_buffer buf (take (idx + 1) bytes) in
        let rest = drop (idx + 1) bytes in
        if not (code == 0)
        then ((buf', d), result code)
        else (sentinel_done buf' d, if ltb 0 (length rest) then leftover rest else result 0)
