-- ===== src/Lpf/Resume/Laws.antt =====
-- What a step has to promise, and that the bytes may then arrive in any pieces.
use mathlib.Core.List.{append-nil}
use open_weaver.Base.{
  ℕ, zero, suc, ◌+◌, ◌*◌, ◌≤◌, ◌<◌, ◌≡◌, refl, sym, ap, subst, ◌∙◌, ◌⊎◌, inl, inr, Option, List, [],
  ◌∷◌, ◌++◌, arith, length, length-append,
}
use open_weaver.Lpf.Resume.{
  Result, Received, Step, ok, too_big, refused, reads_past, done, again, received, resume, and_then,
  view,
}

abbrev pub IsFailure : Result → Type 0
IsFailure ok = ⊥
IsFailure _ = Unit

module _ {B D : Type 0} where
  -- The view of a step.
  abbrev pub outcome : Step B D → (Result × Option B × D) ⊎ (B × List ℕ × D)
  outcome (done r s d) = inl (view (received r s d))
  outcome (again s bytes d) = inr (s, bytes, d)

  abbrev pub Returns : Step B D → B → D → Type 0
  Returns x s d = x ≡ done ok s d

  abbrev pub Fails : Step B D → Result → B → D → Type 0
  Fails x r s d = (x ≡ done r s d) × IsFailure r

  abbrev pub Goes : Step B D → B → List ℕ → D → Type 0
  Goes x s bytes d = x ≡ again s bytes d

  pub Step-cases :
      (x : Step B D)
      → ((s : B) × (d : D) × Returns x s d)
        ⊎ (((r : Result) × (s : B) × (d : D) × Fails x r s d)
            ⊎ ((s : B) × (bytes : List ℕ) × (d : D) × Goes x s bytes d))
  Step-cases (done ok s d) = inl (s, d, refl)
  Step-cases (done too_big s d) = inr (inl (too_big, s, d, (refl, tt)))
  Step-cases (done refused s d) = inr (inl (refused, s, d, (refl, tt)))
  Step-cases (done reads_past s d) = inr (inl (reads_past, s, d, (refl, tt)))
  Step-cases (again s bytes d) = inr (inr (s, bytes, d, refl))

-- The bytes that are left and the buffer's weight bound the steps to come.
abbrev pub measure : {B : Type 0} → (B → ℕ) → B → List ℕ → ℕ
measure weight s bytes = 2 * length bytes + weight s

module _ {B D : Type 0} (step : B → List ℕ → D → Step B D) (weight : B → ℕ)
    (IsValid : B → Type 0) where
  -- What a step leaves of the bytes `a`.
  abbrev pub Settles : B → List ℕ → Step B D → Type 0
  Settles s a (done ok s' d') = IsValid s'
  Settles s a (done too_big s' d') = Unit
  Settles s a (done refused s' d') = Unit
  Settles s a (done reads_past s' d') = Unit
  Settles s a (again s' rest d') = (measure weight s' rest < measure weight s a) × IsValid s'

  -- What the step on `a` says of the step on `a` with `b` behind it.
  abbrev pub Splits : B → List ℕ → List ℕ → D → Step B D → Type 0
  Splits s a b d (done ok s' d') = outcome (step s (a ++ b) d) ≡ outcome (step s' b d')
  Splits s a b d (done too_big s' d') = step s (a ++ b) d ≡ done too_big s' d'
  Splits s a b d (done refused s' d') = step s (a ++ b) d ≡ done refused s' d'
  Splits s a b d (done reads_past s' d') = step s (a ++ b) d ≡ done reads_past s' d'
  Splits s a b d (again s' rest d') = step s (a ++ b) d ≡ again s' (rest ++ b) d'

  pub record Resumes : Type 0 where
    pub light : (s : B) → weight s ≤ 1
    pub settles : (s : B) (a : List ℕ) (d : D) → IsValid s → 0 < length a → Settles s a (step s a d)
    pub splits :
        (s : B) (a b : List ℕ) (d : D)
        → IsValid s
        → 0 < length a
        → 0 < length b
        → Splits s a b d (step s a d)

module _ {B D : Type 0} (step : B → List ℕ → D → Step B D) where
  chosen : ℕ → Step B D → Received B D
  chosen n (done r s' d') = received r s' d'
  chosen n (again s' rest d') = resume step n s' rest d'

  pub resume_done :
      (n : ℕ) (s : B) (b : ℕ) (bytes : List ℕ) (d : D) {r : Result} {s' : B} {d' : D}
      → step s (b ∷ bytes) d ≡ done r s' d'
      → resume step (suc n) s (b ∷ bytes) d ≡ received r s' d'
  unfolding resume chosen
  resume_done n s b bytes d e = ap (chosen n) e

  pub resume_again :
      (n : ℕ) (s : B) (b : ℕ) (bytes : List ℕ) (d : D) {s' : B} {rest : List ℕ} {d' : D}
      → step s (b ∷ bytes) d ≡ again s' rest d'
      → resume step (suc n) s (b ∷ bytes) d ≡ resume step n s' rest d'
  unfolding resume chosen
  resume_again n s b bytes d e = ap (chosen n) e

  pub resume_none : (n : ℕ) (s : B) (d : D) → resume step n s [] d ≡ received ok s d
  unfolding resume
  resume_none zero s d = refl
  resume_none (suc n) s d = refl

module _ {B D : Type 0} (step : B → List ℕ → D → Step B D) (weight : B → ℕ) (IsValid : B → Type 0)
    (laws : Resumes step weight IsValid) where
  -- Once the fuel is above the measure, more of it changes nothing.
  pub resume_enough :
      (n m : ℕ) (s : B) (bytes : List ℕ) (d : D)
      → IsValid s
      → measure weight s bytes < n
      → measure weight s bytes < m
      → resume step n s bytes d ≡ resume step m s bytes d
  resume_enough n m s [] d v p q = resume_none step n s d ∙ sym (resume_none step m s d)
  resume_enough zero m s (b ∷ bytes) d v p q = absurd (omega arith)
  resume_enough (suc n) zero s (b ∷ bytes) d v p q = absurd (omega arith)
  resume_enough (suc n) (suc m) s (b ∷ bytes) d v p q = elim (Step-cases (step s (b ∷ bytes) d)) [
    | inl (s', d', e) ↦ resume_done step n s b bytes d e ∙ sym (resume_done step m s b bytes d e)
    | inr (inl (r, s', d', (e, f))) ↦
        resume_done step n s b bytes d e ∙ sym (resume_done step m s b bytes d e)
    | inr (inr (s', rest, d', e)) ↦
        let down =
          subst (Settles step weight IsValid s (b ∷ bytes)) e
            (laws.settles s (b ∷ bytes) d v (omega arith)) in
        resume_again step n s b bytes d e
        ∙ resume_enough n m s' rest d' down.1 (omega (arith, down.0)) (omega (arith, down.0))
        ∙ sym (resume_again step m s b bytes d e)
  ]

  abbrev rest_of : ℕ → List ℕ → B → D → Received B D
  rest_of k b s d = resume step k s b d

  and_then_none :
      (k : ℕ) (r : Result) (s : B) (d : D)
      → view (and_then (received r s d) (rest_of k [])) ≡ view (received r s d)
  unfolding view and_then
  and_then_none k ok s d = ap view (resume_none step k s d)
  and_then_none k too_big s d = refl
  and_then_none k refused s d = refl
  and_then_none k reads_past s d = refl

  and_then_fails :
      (k : ℕ) (b : List ℕ) (r : Result) (s : B) (d : D)
      → IsFailure r
      → and_then (received r s d) (rest_of k b) ≡ received r s d
  unfolding and_then
  and_then_fails k b ok s d e = absurd e
  and_then_fails k b too_big s d e = refl
  and_then_fails k b refused s d e = refl
  and_then_fails k b reads_past s d e = refl

  abbrev viewed : ℕ → (Result × Option B × D) ⊎ (B × List ℕ × D) → Result × Option B × D
  viewed n (inl v) = v
  viewed n (inr (s, rest, d)) = view (resume step n s rest d)

  view-resume :
      (n : ℕ) (s : B) (b : ℕ) (bytes : List ℕ) (d : D)
      → view (resume step (suc n) s (b ∷ bytes) d) ≡ viewed n (outcome (step s (b ∷ bytes) d))
  view-resume n s b bytes d = elim (Step-cases (step s (b ∷ bytes) d)) [
    | inl (s', d', e) ↦
        ap view (resume_done step n s b bytes d e) ∙ sym (ap (λ x. viewed n (outcome x)) e)
    | inr (inl (r, s', d', (e, f))) ↦
        ap view (resume_done step n s b bytes d e) ∙ sym (ap (λ x. viewed n (outcome x)) e)
    | inr (inr (s', rest, d', e)) ↦
        ap view (resume_again step n s b bytes d e) ∙ sym (ap (λ x. viewed n (outcome x)) e)
  ]

  -- Two first steps of the same outcome lead to the same view.
  resume-outcome :
      (n : ℕ) (s s' : B) (a b : List ℕ) (d d' : D)
      → 0 < length a
      → 0 < length b
      → outcome (step s a d) ≡ outcome (step s' b d')
      → view (resume step (suc n) s a d) ≡ view (resume step (suc n) s' b d')
  resume-outcome n s s' [] b d d' p q e = absurd (omega arith)
  resume-outcome n s s' (x ∷ a) [] d d' p q e = absurd (omega arith)
  resume-outcome n s s' (x ∷ a) (y ∷ b) d d' p q e =
      view-resume n s x a d ∙ ap (viewed n) e ∙ sym (view-resume n s' y b d')

  split_fails :
      (s : B) (a b : List ℕ) (d : D) (r : Result) (s' : B) (d' : D)
      → IsFailure r
      → Splits step weight IsValid s a b d (done r s' d')
      → step s (a ++ b) d ≡ done r s' d'
  split_fails s a b d ok s' d' e h = absurd e
  split_fails s a b d too_big s' d' e h = h
  split_fails s a b d refused s' d' e h = h
  split_fails s a b d reads_past s' d' e h = h

  -- The bytes arrive in two pieces: the view is that of one call on all of them.
  pub resume-append :
      (n m k : ℕ) (s : B) (a b : List ℕ) (d : D)
      → IsValid s
      → measure weight s (a ++ b) < n
      → measure weight s a < m
      → 2 * length b + 1 < k
      → view (resume step n s (a ++ b) d) ≡ view (and_then (resume step m s a d) (rest_of k b))
  unfolding and_then
  resume-append n m k s [] b d v p q l =
      ap view (resume_enough n k s b d v p (omega (arith, laws.light s)))
      ∙ sym (ap (λ (r : Received B D). view (and_then r (rest_of k b))) (resume_none step m s d))
  resume-append n m k s (x ∷ a) [] d v p q l =
      ap (λ (bytes : List ℕ). view (resume step n s bytes d)) (append-nil (x ∷ a))
      ∙ ap view (resume_enough n m s (x ∷ a) d v (omega (arith, length-append (x ∷ a) [])) q)
      ∙ sym (and_then_none k r.res r.buffer r.delegate)
    where
      r : Received B D
      r = resume step m s (x ∷ a) d
  resume-append zero m k s (x ∷ a) (y ∷ b) d v p q l = absurd (omega arith)
  resume-append (suc n) zero k s (x ∷ a) (y ∷ b) d v p q l = absurd (omega arith)
  resume-append (suc n) (suc m) k s (x ∷ a) (y ∷ b) d v p q l =
      elim (Step-cases (step s (x ∷ a) d)) [
        | inl (s', d', e) ↦
            let next : IsValid s' = subst (Settles step weight IsValid s (x ∷ a)) e settled in
            resume-outcome n s s' (x ∷ a ++ (y ∷ b)) (y ∷ b) d d' (omega arith) (omega arith)
              (subst (Splits step weight IsValid s (x ∷ a) (y ∷ b) d) e split)
            ∙ ap view (
                resume_enough (suc n) k s' (y ∷ b) d' next (omega (arith, sum, laws.light s'))
                  (omega (arith, laws.light s')))
            ∙ sym (ap after (resume_done step m s x a d e))
        | inr (inl (r, s', d', (e, f))) ↦
            ap view (
              resume_done step n s x (a ++ (y ∷ b)) d (
                split_fails s (x ∷ a) (y ∷ b) d r s' d' f
                  (subst (Splits step weight IsValid s (x ∷ a) (y ∷ b) d) e split)))
            ∙ sym (ap view (and_then_fails k (y ∷ b) r s' d' f))
            ∙ sym (ap after (resume_done step m s x a d e))
        | inr (inr (s', rest, d', e)) ↦
            let down = subst (Settles step weight IsValid s (x ∷ a)) e settled in
            ap view (
              resume_again step n s x (a ++ (y ∷ b)) d
                (subst (Splits step weight IsValid s (x ∷ a) (y ∷ b) d) e split))
            ∙ resume-append n m k s' rest (y ∷ b) d' down.1
                (omega (arith, down.0, sum, length-append rest (y ∷ b))) (omega (arith, down.0)) l
            ∙ sym (ap after (resume_again step m s x a d e))
      ]
    where
      sum : length (a ++ (y ∷ b)) ≡ length a + suc (length b)
      sum = length-append a (y ∷ b)

      settled : Settles step weight IsValid s (x ∷ a) (step s (x ∷ a) d)
      settled = laws.settles s (x ∷ a) d v (omega arith)

      split : Splits step weight IsValid s (x ∷ a) (y ∷ b) d (step s (x ∷ a) d)
      split = laws.splits s (x ∷ a) (y ∷ b) d v (omega arith) (omega arith)

      after : Received B D → Result × Option B × D
      after r = view (and_then r (rest_of k (y ∷ b)))
