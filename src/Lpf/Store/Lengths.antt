-- ===== src/Lpf/Store/Lengths.antt =====
-- The part of the storing buffer that reads a length, as a step that resumes.
use open_weaver.Base.{
  ℕ, ◌+◌, ◌-◌, ◌*◌, ◌%◌, ◌^◌, ◌≤◌, ◌<◌, ◌≡◌, refl, sym, ap, ◌∙◌, ◌⊎◌, inl, inr, Bool, true, false,
  none, some, List, [], ◌∷◌, ◌++◌, arith, ltb, Bool-cases, length, take, drop, length-append,
  length-drop, take-append_within, drop-append_within, take-append_beyond, drop-append_beyond,
  sub64,
}
use open_weaver.Lpf.Resume.{Step, ok, too_big, done, again, view}
use open_weaver.Lpf.Resume.Laws.{outcome, Settles, Splits}
use open_weaver.Lpf.Store.{
  StoreThenForwardBuffer, store_step, accumulate, store_length, max_message,
}

-- Less than 8 bytes of the length have come, or what is stored is counted and not yet the message.
abbrev pub IsValid : StoreThenForwardBuffer → Type 0
IsValid s = elim s.buf [
  | none ↦ s.size < 8
  | some stored ↦ (length stored ≡ s.size) × ((s.size < s.length) ⊎ ((s.size ≡ 0) × (s.length ≡ 0)))
]

abbrev pub weight : StoreThenForwardBuffer → ℕ
weight s = elim s.buf [ none ↦ 0 | some stored ↦ 1 ]

pub light : (s : StoreThenForwardBuffer) → weight s ≤ 1
light s = ground arith

pub accumulate-append :
    (n : ℕ) (a b : List ℕ) → accumulate n (a ++ b) ≡ accumulate (accumulate n a) b
unfolding accumulate
accumulate-append n [] b = refl
accumulate-append n (x ∷ a) b = accumulate-append ((n * 256 + x) % 2 ^ 64) a b

-- The choices of `store_length`, apart from what they are made on.
chosen :
    {D : Type 0}
    → (z i : ℕ) (short big : Bool) (acc sum len : ℕ) (rest : List ℕ) → D
    → Step StoreThenForwardBuffer D
chosen z i true big acc sum len rest d =
    done ok (record { buf = none; length = acc; size = sum; id = i }) d
chosen z i false true acc sum len rest d =
    done too_big (record { buf = none; length = len; size = z; id = i }) d
chosen z i false false acc sum len rest d =
    again (record { buf = some []; length = len; size = 0; id = i }) rest d

outcome-chosen :
    {D : Type 0} (z z' i : ℕ) (short big : Bool) (acc sum len : ℕ) (rest : List ℕ) (d : D)
    → outcome (chosen z i short big acc sum len rest d)
      ≡ outcome (chosen z' i short big acc sum len rest d)
unfolding chosen view
outcome-chosen z z' i true big acc sum len rest d = refl
outcome-chosen z z' i false true acc sum len rest d = refl
outcome-chosen z z' i false false acc sum len rest d = refl

module _ {D : Type 0} (deliver : ℕ → List ℕ → D → Bool × D) where
  abbrev pub stepping : StoreThenForwardBuffer → List ℕ → D → Step StoreThenForwardBuffer D
  stepping = store_step deliver

  module _ (l z i : ℕ) where
    abbrev pub reading : StoreThenForwardBuffer
    reading = record { buf = none; length = l; size = z; id = i }

    pub length-Settles :
        (a : List ℕ) (d : D)
        → z < 8
        → 0 < length a
        → Settles stepping weight IsValid reading a (store_length reading a d)
    unfolding store_length
    length-Settles a d v p =
        let n : sub64 8 z ≡ 8 - z = omega arith in rw n (ground (arith, length-drop (8 - z) a))

    store_length-chosen :
        (a : List ℕ) (d : D)
        → z < 8
        → store_length reading a d
          ≡ chosen z i
              (ltb (length a + z) 8)
              (ltb max_message (accumulate l (take (8 - z) a)))
              (accumulate l a)
              (z + length a)
              (accumulate l (take (8 - z) a))
              (drop (8 - z) a)
              d
    unfolding store_length chosen
    store_length-chosen a d v = let n : sub64 8 z ≡ 8 - z = omega arith in rw n (ground arith)

  length-joined :
      (l z i : ℕ) (a b : List ℕ) (d : D)
      → z + length a < 8
      → outcome (store_length (reading l z i) (a ++ b) d)
        ≡ outcome (store_length (reading (accumulate l a) (z + length a) i) b d)
  length-joined l z i a b d w =
      let e : ltb (length (a ++ b) + z) 8 ≡ ltb (length b + (z + length a)) 8 =
        ground (arith, length-append a b) in
      let sum : z + length (a ++ b) ≡ z + length a + length b = omega (arith, length-append a b) in
      let n : 8 - z - length a ≡ 8 - (z + length a) = omega arith in
      let len : accumulate l (take (8 - z) (a ++ b))
          ≡ accumulate (accumulate l a) (take (8 - (z + length a)) b) =
        ap (accumulate l) (take-append_beyond (8 - z) a b (omega arith))
        ∙ accumulate-append l a (take (8 - z - length a) b)
        ∙ ap (λ k. accumulate (accumulate l a) (take k b)) n in
      let rest : drop (8 - z) (a ++ b) ≡ drop (8 - (z + length a)) b =
        drop-append_beyond (8 - z) a b (omega arith) ∙ ap (λ k. drop k b) n in
      ap outcome (store_length-chosen l z i (a ++ b) d (omega arith))
      ∙ rw (e, accumulate-append l a b, sum, len, rest)
          (outcome-chosen z (z + length a) i (ltb (length b + (z + length a)) 8)
            (ltb max_message (accumulate (accumulate l a) (take (8 - (z + length a)) b)))
            (accumulate (accumulate l a) b) (z + length a + length b)
            (accumulate (accumulate l a) (take (8 - (z + length a)) b))
            (drop (8 - (z + length a)) b) d)
      ∙ sym (ap outcome (store_length-chosen (accumulate l a) (z + length a) i b d w))

  pub length-Splits :
      (l z i : ℕ) (a b : List ℕ) (d : D)
      → z < 8
      → 0 < length a
      → Splits stepping weight IsValid (reading l z i) a b d (store_length (reading l z i) a d)
  unfolding store_step store_length
  length-Splits l z i a b d v p = elim (Bool-cases (ltb (length a + z) 8)) [
    | inl lt ↦ rw lt (length-joined l z i a b d (ground arith))
    | inr ge ↦
        let w : 8 - z ≤ length a = ground arith in
        let n : sub64 8 z ≡ 8 - z = omega arith in
        rw n (
          ground (
            arith,
            ge,
            length-append a b,
            take-append_within (8 - z) a b w,
            drop-append_within (8 - z) a b w,
          ))
  ]
