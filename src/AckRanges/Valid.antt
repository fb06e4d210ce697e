-- ===== src/AckRanges/Valid.antt =====
-- Well-formed ranges stay well formed.
use open_weaver.Base.{
  ℕ, ◌+◌, ◌-◌, ◌^◌, ◌≤◌, ◌<◌, ◌≡◌, ◌⊎◌, Bool, true, false, not, List, [], ◌∷◌, arith, sub64,
}
use open_weaver.AckRanges.{AckRanges, walk}
use open_weaver.AckRanges.Seen.{Fits, EndsSeen}
use open_weaver.AckRanges.Gap.{fill_plain, fill_gap-plain}
use open_weaver.AckRanges.Walk.{in_range-plain}

-- Runs of seen numbers and gaps alternate, no range is empty, together they stay above zero, and the
-- successor of the largest number does not wrap.
pub record IsValid (a : AckRanges) : Type 0 where
  pub fits : Fits (a.largest + 1) a.ranges
  pub ends : (a.ranges ≡ []) ⊎ EndsSeen false a.ranges
  pub small : a.largest + 1 < 2 ^ 64

pub Fits-at : (x y : ℕ) (rs : List ℕ) → x ≡ y → Fits x rs → Fits y rs
Fits-at x y rs e f = rw (← e) f

-- Well formed from `top` on, with `gap` the kind of the first range.
abbrev pub WellFormed : Bool → ℕ → List ℕ → Type 0
WellFormed gap top rs = Fits top rs × EndsSeen gap rs

fill_plain-WellFormed :
    (num top t b prev r next : ℕ) (rest : List ℕ)
    → top ≡ t + prev
    → t ≡ b + r
    → num < t
    → b ≤ num
    → WellFormed false top (prev ∷ r ∷ next ∷ rest)
    → WellFormed false top (fill_plain num b t prev r next rest)
unfolding fill_plain
fill_plain-WellFormed num top t b prev r next rest et er lt le v = ground (
  arith,
  Fits-at (top - prev - r - next) (top - (prev + 1 + next)) rest,
  Fits-at (top - prev - r - next) (top - (prev + (next + 1))) rest,
  Fits-at (top - prev - r - next) (top - (prev + 1) - (r - 1) - next) rest,
  Fits-at (top - prev - r - next) (top - prev - (r - 1) - (next + 1)) rest,
  Fits-at (top - prev - r - next) (top - prev - (t - 1 - num) - 1 - (num - b) - next) rest,
)

pub walk-WellFormed :
    (num high : ℕ) (gap : Bool) (prev : ℕ) (rest : List ℕ) (top : ℕ)
    → top < 2 ^ 64
    → high ≡ sub64 (top - prev) 1
    → num < top - prev
    → WellFormed (not gap) top (prev ∷ rest)
    → WellFormed (not gap) top (walk num high gap prev rest).1
unfolding walk
walk-WellFormed num high false prev [] top w eh lt v = cc
walk-WellFormed num high true prev [] top w eh lt v = ground arith
walk-WellFormed num high true prev (r ∷ []) top w eh lt v = cc
walk-WellFormed num high true prev (r ∷ next ∷ rest) top w eh lt v = ground (
  arith,
  in_range-plain num (sub64 high r) high (top - prev) r,
  fill_gap-plain num (sub64 high r) high (top - prev) (top - prev - r) prev r next rest,
  fill_plain-WellFormed num top (top - prev) (top - prev - r) prev r next rest,
  walk-WellFormed num (sub64 high r) false r (next ∷ rest) (top - prev),
)
walk-WellFormed num high false prev (r ∷ rest) top w eh lt v = ground (
  arith,
  in_range-plain num (sub64 high r) high (top - prev) r,
  walk-WellFormed num (sub64 high r) true r rest (top - prev),
)
