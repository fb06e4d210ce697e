-- ===== src/Lpf/Resume/Pieces.antt =====
-- Bytes that arrive in any number of pieces.
use open_weaver.Base.{
  ℕ, zero, suc, ◌≡◌, refl, sym, ap, subst, ◌∙◌, inl, inr, List, [], ◌∷◌, ◌++◌, arith,
}
use open_weaver.Bytes.{concat}
use open_weaver.Lpf.Resume.{
  Result, Received, Step, ok, too_big, refused, reads_past, done, again, received, resume, and_then,
  view,
}
use open_weaver.Lpf.Resume.Laws.{Resumes, Settles, Step-cases, resume_done, resume_again}

module _ {B D : Type 0} where
  -- The calls for the pieces in turn, up to the first that fails.
  unfoldable pub receive_all :
      (B → List ℕ → D → Received B D) → List (List ℕ) → B → D → Received B D
  unfolding and_then
  receive_all recv [] s d = received ok s d
  receive_all recv (p ∷ ps) s d = and_then (recv s p d) (receive_all recv ps)

  -- A call that does not fail leaves a buffer of the kind `P`.
  abbrev pub Keeps : (B → Type 0) → Received B D → Type 0
  Keeps P r = r.res ≡ ok → P r.buffer

  and_then-view :
      (P : B → Type 0) (r : Result) (s : B) (d : D) (f g : B → D → Received B D)
      → Keeps P (received r s d)
      → ((s : B) (d : D) → P s → view (f s d) ≡ view (g s d))
      → view (and_then (received r s d) f) ≡ view (and_then (received r s d) g)
  unfolding and_then
  and_then-view P ok s d f g k h = h s d (k refl)
  and_then-view P too_big s d f g k h = refl
  and_then-view P refused s d f g k h = refl
  and_then-view P reads_past s d f g k h = refl

  pub receive_all-concat :
      (recv : B → List ℕ → D → Received B D) (P : B → Type 0)
      → ((s : B) (d : D) → recv s [] d ≡ received ok s d)
      → ((s : B) (a : List ℕ) (d : D) → P s → Keeps P (recv s a d))
      → ((s : B) (a b : List ℕ) (d : D)
          → P s
          → view (recv s (a ++ b) d) ≡ view (and_then (recv s a d) (λ s' d'. recv s' b d')))
      → (ps : List (List ℕ)) (s : B) (d : D) → P s
      → view (receive_all recv ps s d) ≡ view (recv s (concat ps) d)
  unfolding receive_all concat
  receive_all-concat recv P empty keeps split [] s d v = sym (ap view (empty s d))
  receive_all-concat recv P empty keeps split (p ∷ ps) s d v =
      let r : Received B D = recv s p d in
      and_then-view P r.res r.buffer r.delegate (receive_all recv ps)
        (λ s' d'. recv s' (concat ps) d') (keeps s p d v)
        (λ s' d' v'. receive_all-concat recv P empty keeps split ps s' d' v')
      ∙ sym (split s p (concat ps) d v)

module _ {B D : Type 0} (step : B → List ℕ → D → Step B D) (weight : B → ℕ) (IsValid : B → Type 0)
    (laws : Resumes step weight IsValid) where
  done-Keeps :
      (a : List ℕ) (s : B) (r : Result) (s' : B) (d' : D)
      → Settles step weight IsValid s a (done r s' d')
      → Keeps IsValid (received r s' d')
  done-Keeps a s ok s' d' v e = v
  done-Keeps a s too_big s' d' v e = cc
  done-Keeps a s refused s' d' v e = cc
  done-Keeps a s reads_past s' d' v e = cc

  -- A call that does not fail leaves a valid buffer.
  pub resume-IsValid :
      (n : ℕ) (s : B) (bytes : List ℕ) (d : D) → IsValid s → Keeps IsValid (resume step n s bytes d)
  unfolding resume
  resume-IsValid zero s bytes d v = λ _. v
  resume-IsValid (suc n) s [] d v = λ _. v
  resume-IsValid (suc n) s (b ∷ bytes) d v =
      let h = laws.settles s (b ∷ bytes) d v (omega arith) in
      let P = Keeps {B = B} {D = D} IsValid in
      let settled = Settles step weight IsValid s (b ∷ bytes) in
      elim (Step-cases (step s (b ∷ bytes) d)) [
        | inl (s', d', e) ↦
            subst P (sym (resume_done step n s b bytes d e)) (λ _. subst settled e h)
        | inr (inl (r, s', d', (e, f))) ↦
            subst P (sym (resume_done step n s b bytes d e))
              (done-Keeps (b ∷ bytes) s r s' d' (subst settled e h))
        | inr (inr (s', rest, d', e)) ↦
            subst P (sym (resume_again step n s b bytes d e))
              (resume-IsValid n s' rest d' (subst settled e h).1)
      ]

abbrev pub IsWithin : Result → Type 0
IsWithin reads_past = ⊥
IsWithin _ = Unit

module _ {B D : Type 0} (step : B → List ℕ → D → Step B D) (P : B → Type 0) where
  -- What a step leaves, failed or not, is of the kind `P`, and it does not read past the bytes.
  abbrev pub StepKeeps : Step B D → Type 0
  StepKeeps (done r s d) = P s × IsWithin r
  StepKeeps (again s rest d) = P s

  pub resume-keeps :
      ((s : B) (a : List ℕ) (d : D) → P s → StepKeeps (step s a d))
      → (n : ℕ) (s : B) (a : List ℕ) (d : D) → P s
      → P (resume step n s a d).buffer × IsWithin (resume step n s a d).res
  unfolding resume
  resume-keeps keeps zero s a d p = (p, tt)
  resume-keeps keeps (suc n) s [] d p = (p, tt)
  resume-keeps keeps (suc n) s (b ∷ a) d p =
      let h = keeps s (b ∷ a) d p in
      let Q : Received B D → Type 0 = λ r. P r.buffer × IsWithin r.res in
      elim (Step-cases (step s (b ∷ a) d)) [
        | inl (s', d', e) ↦ subst Q (sym (resume_done step n s b a d e)) (subst StepKeeps e h)
        | inr (inl (r, s', d', (e, f))) ↦
            subst Q (sym (resume_done step n s b a d e)) (subst StepKeeps e h)
        | inr (inr (s', rest, d', e)) ↦
            subst Q (sym (resume_again step n s b a d e))
              (resume-keeps keeps n s' rest d' (subst StepKeeps e h))
      ]
