-- ===== src/Lpf/CutThrough.antt =====
-- lpf/include/marlin/lpf/CutThroughBuffer.hpp: the same frames, passed to the delegate as they come in. A
-- buffer that comes in is the list of its bytes.
pub mod Stores
use open_weaver.Base.{
  ℕ, zero, suc, ◌+◌, ◌-◌, ◌*◌, ◌/◌, ◌%◌, ◌^◌, ◌≤◌, ◌<◌, min, max, ◌≡◌, refl, sym, ap, subst, ◌∙◌,
  ◌≢◌, ◌↔◌, ◌⊎◌, inl, inr, Bool, true, false, not, ◌&&◌, ◌||◌, Option, none, some, List, [], ◌∷◌,
  ◌++◌, map, arith, ltb, leb, ◌==◌, if◌then◌else◌, ltb→lt, lt→ltb, leb→le, ==_iff, ==_refl,
  Bool-cases, Option-cases, add64, sub64, take, drop, length-append, length-take, length-drop,
  take-append-drop, All, take_all, take-append_length, drop-append_length, length,
}
use open_weaver.Lpf.Resume.{
  Result, Received, Step, ok, too_big, refused, reads_past, done, again, received, resume, and_then,
  view,
}
use open_weaver.Lpf.Store.{accumulate, max_message}

pub record CutThroughBuffer : Type 0 where
  pub cut_through : Bool
  pub length : ℕ
  pub size : ℕ
  pub id : ℕ

abbrev pub new_cut_through : ℕ → CutThroughBuffer
new_cut_through id = record { cut_through = false; length = 0; size = 0; id = id }

-- What a delegate does with a message that is cut through; it may refuse bytes.
pub record CutThroughDelegate (D : Type 0) : Type 0 where
  pub cut_through_recv_start : (id length : ℕ) → D → D
  pub cut_through_recv_bytes : (id : ℕ) → List ℕ → D → Bool × D
  pub cut_through_recv_end : (id : ℕ) → D → D

module _ {D : Type 0} (e : CutThroughDelegate D) where
  -- The part of `did_recv` that reads the length.
  unfoldable pub cut_length : CutThroughBuffer → List ℕ → D → Step CutThroughBuffer D
  unfolding accumulate
  cut_length s bytes d =
      if ltb (length bytes + s.size) 8
      then done ok (record s { length = accumulate s.length bytes; size = s.size + length bytes }) d
      else let n = sub64 8 s.size in
        let len = accumulate s.length (take n bytes) in
        if ltb (length bytes) n
        then done reads_past s d
        else if ltb max_message len
        then done too_big (record s { length = len }) d
        else again (record s { cut_through = true; length = len; size = 0 }) (drop n bytes)
            (e.cut_through_recv_start s.id len d)

  -- The part that passes the message on.
  unfoldable pub cut_message : CutThroughBuffer → List ℕ → D → Step CutThroughBuffer D
  cut_message s bytes d =
      if ltb (length bytes + s.size) s.length
      then (let s' = record s { size = s.size + length bytes } in
          let (accepted, d') = e.cut_through_recv_bytes s.id bytes d in
          if not accepted then done refused s' d' else done ok s' d')
      else let n = s.length - s.size in
        let (accepted, d') = e.cut_through_recv_bytes s.id (take n bytes) d in
        if not accepted
        then done refused s d'
        else again (record s { cut_through = false; length = 0; size = 0 }) (drop n bytes)
            (e.cut_through_recv_end s.id d')

  unfoldable pub cut_step : CutThroughBuffer → List ℕ → D → Step CutThroughBuffer D
  unfolding cut_length cut_message
  cut_step s bytes d = elim s.cut_through [
    | false ↦ cut_length s bytes d
    | true ↦ cut_message s bytes d
  ]

  -- `did_recv`
  unfoldable pub cut_recv : CutThroughBuffer → List ℕ → D → Received CutThroughBuffer D
  unfolding resume cut_step
  cut_recv s bytes d = resume cut_step (2 * length bytes + 2) s bytes d
