-- ===== src/Lpf/Store.antt =====
-- lpf/include/marlin/lpf/StoreThenForwardBuffer.hpp: a message is a length in 8 bytes, highest first, and
-- that many bytes; it is stored until it is whole and passed to the delegate then. A buffer that comes
-- in is the list of its bytes, and the array `buf` is the list of the bytes that are written so far.
pub mod Lengths
pub mod Messages
pub mod Resumes
use open_weaver.Base.{
  ℕ, zero, suc, ◌+◌, ◌-◌, ◌*◌, ◌/◌, ◌%◌, ◌^◌, ◌≤◌, ◌<◌, min, max, ◌≡◌, refl, sym, ap, subst, ◌∙◌,
  ◌≢◌, ◌↔◌, ◌⊎◌, inl, inr, Bool, true, false, not, ◌&&◌, ◌||◌, Option, none, some, List, [], ◌∷◌,
  ◌++◌, map, arith, ltb, leb, ◌==◌, if◌then◌else◌, ltb→lt, lt→ltb, leb→le, ==_iff, ==_refl,
  Bool-cases, Option-cases, add64, sub64, take, drop, length-append, length-take, length-drop,
  take-append-drop, All, take_all, take-append_length, drop-append_length, length,
}
use open_weaver.Lpf.Resume.{
  Result, Received, Step, ok, too_big, refused, reads_past, done, again, received, resume, and_then,
  view,
}

pub record StoreThenForwardBuffer : Type 0 where
  pub buf : Option (List ℕ)
  pub length : ℕ
  pub size : ℕ
  pub id : ℕ

abbrev pub new_store : ℕ → StoreThenForwardBuffer
new_store id = record { buf = none; length = 0; size = 0; id = id }

-- `length = (length << 8) | b` of each byte in turn.
unfoldable pub accumulate : ℕ → List ℕ → ℕ
accumulate length [] = length
accumulate length (b ∷ bytes) = accumulate ((length * 256 + b) % 2 ^ 64) bytes

abbrev pub max_message : ℕ
max_message = 5000000

-- The part of `did_recv` that reads the length; `n` is how many bytes of it are missing. `8 - size` is a
-- `size_t`: it wraps when a message was refused with more than 8 bytes counted.
unfoldable pub store_length :
    {D : Type 0} → StoreThenForwardBuffer → List ℕ → D → Step StoreThenForwardBuffer D
unfolding accumulate
store_length s bytes d =
    if ltb (length bytes + s.size) 8
    then done ok (record s { length = accumulate s.length bytes; size = s.size + length bytes }) d
    else let n = sub64 8 s.size in
      let len = accumulate s.length (take n bytes) in
      if ltb (length bytes) n
      then done reads_past s d
      else if ltb max_message len
      then done too_big (record s { length = len }) d
      else again (record s { buf = some []; length = len; size = 0 }) (drop n bytes) d

module _ {D : Type 0} (did_recv_stf_message : ℕ → List ℕ → D → Bool × D) where
  -- The part that reads the message. The delegate may refuse it.
  unfoldable pub store_message :
      StoreThenForwardBuffer → List ℕ → List ℕ → D → Step StoreThenForwardBuffer D
  store_message s stored bytes d =
      if ltb (length bytes + s.size) s.length
      then done ok (record s { buf = some (stored ++ bytes); size = s.size + length bytes }) d
      else let n = s.length - s.size in
        let (accepted, d') = did_recv_stf_message s.id (stored ++ take n bytes) d in
        if not accepted
        then done refused (record s { buf = none }) d'
        else again (record s { buf = none; length = 0; size = 0 }) (drop n bytes) d'

  unfoldable pub store_step : StoreThenForwardBuffer → List ℕ → D → Step StoreThenForwardBuffer D
  unfolding store_length store_message
  store_step s bytes d = elim s.buf [
    | none ↦ store_length s bytes d
    | some stored ↦ store_message s stored bytes d
  ]

  -- `did_recv`: every step but the one behind a length of 0 uses up a byte.
  unfoldable pub store_recv :
      StoreThenForwardBuffer → List ℕ → D → Received StoreThenForwardBuffer D
  unfolding resume store_step
  store_recv s bytes d = resume store_step (2 * length bytes + 2) s bytes d
