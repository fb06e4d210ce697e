-- ===== src/AckRanges/Seen.antt =====
-- The set of packet numbers that a list of ranges stands for, and what an insertion does to it.
use open_weaver.Base.{
  ℕ, ◌+◌, ◌-◌, ◌≤◌, ◌<◌, ◌≡◌, refl, Bool, true, false, not, ◌&&◌, List, [], ◌∷◌, ltb, leb,
  if◌then◌else◌, arith,
}
use open_weaver.AckRanges.{AckRanges}

-- Ranges counted down from `top`, the first number above them; `gap` is the kind of the first.
unfoldable pub seen : Bool → ℕ → List ℕ → ℕ → Bool
seen gap top [] n = false
seen gap top (r ∷ rs) n =
    if leb (top - r) n && ltb n top then not gap else seen (not gap) (top - r) rs n

unfoldable pub contains : AckRanges → ℕ → Bool
contains a n = seen false (a.largest + 1) a.ranges n

-- No range is empty, and together they do not go below zero.
abbrev pub Fits : ℕ → List ℕ → Type 0
Fits top [] = Unit {0}
Fits top (r ∷ rs) = (0 < r) × (r ≤ top) × Fits (top - r) rs

-- The last range is one of seen numbers.
abbrev pub EndsSeen : Bool → List ℕ → Type 0
EndsSeen gap [] = gap ≡ true
EndsSeen gap (r ∷ rs) = EndsSeen (not gap) rs

pub seen_below : (gap : Bool) (top : ℕ) (rs : List ℕ) (n : ℕ) → top ≤ n → seen gap top rs n ≡ false
unfolding seen
seen_below gap top [] n h = refl
seen_below gap top (r ∷ rs) n h = ground (arith, seen_below (not gap) (top - r) rs n)

-- One range of `seen`, given where it ends.
pub seen_cons :
    (gap : Bool) (top r b : ℕ) (rs : List ℕ) (n : ℕ)
    → top ≡ b + r
    → seen gap top (r ∷ rs) n ≡ (if leb b n && ltb n top then not gap else seen (not gap) b rs n)
unfolding seen
seen_cons gap top r b rs n e = let e' : top - r ≡ b = omega arith in rw e'

module _ (top t b c prev r next : ℕ) (rest : List ℕ) (n : ℕ) (et : top ≡ t + prev) (er : t ≡ b + r)
    (eb : b ≡ c + next) where
  pub seen_three : seen false top (prev ∷ r ∷ next ∷ rest) n ≡ (
      if leb t n && ltb n top
      then true
      else if leb c n && ltb n b
      then true
      else if ltb n t && leb b n
      then false
      else seen true c rest n)
  seen_three =
      rw
        (
          seen_cons false top prev t (r ∷ next ∷ rest) n et,
          seen_cons true t r b (next ∷ rest) n er,
          seen_cons false b next c rest n eb,
        )
        (ground arith)
