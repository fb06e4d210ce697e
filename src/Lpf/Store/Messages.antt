-- ===== src/Lpf/Store/Messages.antt =====
-- The part of the storing buffer that reads a message, as a step that resumes.
use mathlib.Core.List.{append_assoc}
use open_weaver.Base.{
  ℕ, ◌+◌, ◌-◌, ◌≤◌, ◌<◌, ◌≡◌, refl, sym, ap, ◌∙◌, inl, inr, Bool, true, false, none, some, List,
  ◌++◌, arith, ltb, Bool-cases, length, take, drop, length-append, length-drop, take-append_within,
  drop-append_within, take-append_beyond, drop-append_beyond,
}
use open_weaver.Lpf.Resume.{Step, ok, refused, done, again, view}
use open_weaver.Lpf.Resume.Laws.{outcome, Settles, Splits}
use open_weaver.Lpf.Store.Lengths.{IsValid, stepping, weight}
use open_weaver.Lpf.Store.{StoreThenForwardBuffer, store_step, store_message}

-- The choices of `store_message`.
resolved :
    {D : Type 0}
    → (l z i : ℕ) (short accepted : Bool) (stored : List ℕ) (sum : ℕ) (rest : List ℕ) → D
    → D
    → Step StoreThenForwardBuffer D
resolved l z i true accepted stored sum rest d d' =
    done ok (record { buf = some stored; length = l; size = sum; id = i }) d
resolved l z i false false stored sum rest d d' =
    done refused (record { buf = none; length = l; size = z; id = i }) d'
resolved l z i false true stored sum rest d d' =
    again (record { buf = none; length = 0; size = 0; id = i }) rest d'

outcome-resolved :
    {D : Type 0} (l z z' i : ℕ) (short accepted : Bool) (stored : List ℕ) (sum : ℕ) (rest : List ℕ)
    (d d' : D)
    → outcome (resolved l z i short accepted stored sum rest d d')
      ≡ outcome (resolved l z' i short accepted stored sum rest d d')
unfolding resolved view
outcome-resolved l z z' i true accepted stored sum rest d d' = refl
outcome-resolved l z z' i false true stored sum rest d d' = refl
outcome-resolved l z z' i false false stored sum rest d d' = refl

module _ {D : Type 0} (deliver : ℕ → List ℕ → D → Bool × D) where
  module _ (m : List ℕ) (l z i : ℕ) where
    abbrev pub storing : StoreThenForwardBuffer
    storing = record { buf = some m; length = l; size = z; id = i }

    pub message-Settles :
        (a : List ℕ) (d : D)
        → IsValid storing
        → 0 < length a
        → Settles (stepping deliver) weight IsValid storing a (store_message deliver storing m a d)
    unfolding store_message
    message-Settles a d v p = ground (arith, length-drop (l - z) a, length-append m a)

    store_message-resolved :
        (a : List ℕ) (d : D)
        → let r = deliver i (m ++ take (l - z) a) d in
          store_message deliver storing m a d
          ≡ resolved l z i (ltb (length a + z) l) r.0 (m ++ a) (z + length a) (drop (l - z) a) d r.1
    unfolding store_message resolved
    store_message-resolved a d = ground arith

  message-joined :
      (m : List ℕ) (l z i : ℕ) (a b : List ℕ) (d : D)
      → z + length a < l
      → outcome (store_message deliver (storing m l z i) m (a ++ b) d)
        ≡ outcome (store_message deliver (storing (m ++ a) l (z + length a) i) (m ++ a) b d)
  message-joined m l z i a b d w =
      let e : ltb (length (a ++ b) + z) l ≡ ltb (length b + (z + length a)) l =
        ground (arith, length-append a b) in
      let sum : z + length (a ++ b) ≡ z + length a + length b = omega (arith, length-append a b) in
      let n : l - z - length a ≡ l - (z + length a) = omega arith in
      let whole : m ++ take (l - z) (a ++ b) ≡ (m ++ a) ++ take (l - (z + length a)) b =
        ap (λ r. m ++ r) (take-append_beyond (l - z) a b (omega arith))
        ∙ sym (append_assoc m a (take (l - z - length a) b))
        ∙ ap (λ k. (m ++ a) ++ take k b) n in
      let rest : drop (l - z) (a ++ b) ≡ drop (l - (z + length a)) b =
        drop-append_beyond (l - z) a b (omega arith) ∙ ap (λ k. drop k b) n in
      let r = deliver i ((m ++ a) ++ take (l - (z + length a)) b) d in
      ap outcome (store_message-resolved m l z i (a ++ b) d)
      ∙ rw (e, sum, whole, rest, sym (append_assoc m a b))
          (outcome-resolved l z (z + length a) i (ltb (length b + (z + length a)) l) r.0
            ((m ++ a) ++ b) (z + length a + length b) (drop (l - (z + length a)) b) d r.1)
      ∙ sym (ap outcome (store_message-resolved (m ++ a) l (z + length a) i b d))

  pub message-Splits :
      (m : List ℕ) (l z i : ℕ) (a b : List ℕ) (d : D)
      → IsValid (storing m l z i)
      → 0 < length a
      → Splits
          (stepping deliver)
          weight
          IsValid
          (storing m l z i)
          a
          b
          d
          (store_message deliver (storing m l z i) m a d)
  unfolding store_step store_message
  message-Splits m l z i a b d v p = elim (Bool-cases (ltb (length a + z) l)) [
    | inl lt ↦ rw lt (message-joined m l z i a b d (ground arith))
    | inr ge ↦
        let w : l - z ≤ length a = ground arith in
        ground (
          arith,
          ge,
          length-append a b,
          take-append_within (l - z) a b w,
          drop-append_within (l - z) a b w,
        )
  ]
