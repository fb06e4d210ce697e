-- ===== src/Lpf/Resume.antt =====
-- The `did_recv` that StoreThenForwardBuffer.hpp and CutThroughBuffer.hpp share: it returns at once on
-- no bytes, else takes one step and calls itself on the bytes that are left.
pub mod Laws
pub mod Pieces
use open_weaver.Base.{
  ℕ, zero, suc, ◌+◌, ◌-◌, ◌*◌, ◌/◌, ◌%◌, ◌^◌, ◌≤◌, ◌<◌, min, max, ◌≡◌, refl, sym, ap, subst, ◌∙◌,
  ◌≢◌, ◌↔◌, ◌⊎◌, inl, inr, Bool, true, false, not, ◌&&◌, ◌||◌, Option, none, some, List, [], ◌∷◌,
  ◌++◌, map, arith, ltb, leb, ◌==◌, if◌then◌else◌, ltb→lt, lt→ltb, leb→le, ==_iff, ==_refl,
  Bool-cases, Option-cases, add64, sub64, length, take, drop, length-append, length-take,
  length-drop, take-append-drop, All, take_all, take-append_length, drop-append_length,
}

-- 0, -1 and -2. `reads_past` is none of them: the code reads behind the bytes that came in, and what it
-- does then is undefined.
pub data Result : Type 0 where
  ok too_big refused reads_past : Result

pub record Received (B D : Type 0) : Type 0 where
  pub res : Result
  pub buffer : B
  pub delegate : D

-- A step returns, or goes on with the buffer on the bytes that are left.
pub data Step (B D : Type 0) : Type 0 where
  done : Result → B → D → Step B D
  again : B → List ℕ → D → Step B D

module _ {B D : Type 0} where
  abbrev pub received : Result → B → D → Received B D
  received r s d = record { res = r; buffer = s; delegate = d }

  unfoldable pub resume : (B → List ℕ → D → Step B D) → ℕ → B → List ℕ → D → Received B D
  resume step zero s bytes d = received ok s d
  resume step (suc n) s [] d = received ok s d
  resume step (suc n) s (b ∷ bytes) d = elim (step s (b ∷ bytes) d) [
    | done r s' d' ↦ received r s' d'
    | again s' rest d' ↦ resume step n s' rest d'
  ]

  -- A first call, and a second one on the buffer that it leaves unless it fails.
  unfoldable pub and_then : Received B D → (B → D → Received B D) → Received B D
  and_then r k = elim r.res [ ok ↦ k r.buffer r.delegate | _ ↦ r ]

  -- What the caller sees: after a failure the buffer is not used again.
  unfoldable pub view : Received B D → Result × Option B × D
  view r = elim r.res [ ok ↦ (ok, some r.buffer, r.delegate) | e ↦ (e, none, r.delegate) ]
