-- ===== src/AckRanges/Gap.antt =====
-- What filling a gap does to the set of packet numbers.
use open_weaver.Base.{
  ℕ, ◌+◌, ◌-◌, ◌^◌, ◌≤◌, ◌<◌, ◌≡◌, ◌≢◌, true, false, ◌&&◌, ◌||◌, List, ◌∷◌, arith, ltb, leb, ◌==◌,
  if◌then◌else◌, sub64,
}
use open_weaver.AckRanges.{fill_gap, List}
use open_weaver.AckRanges.Seen.{seen, seen_cons, seen_three}

-- `fill_gap` without wrap-around: `t` is the first number above the gap, `b` the first of it.
unfoldable pub fill_plain : ℕ → ℕ → ℕ → ℕ → ℕ → ℕ → List ℕ → List ℕ
fill_plain num b t prev r next rest =
    if num + 1 == t
    then (if r == 1 then (prev + 1 + next) ∷ rest else (prev + 1) ∷ (r - 1) ∷ next ∷ rest)
    else if num == b
    then (if r == 1 then (prev + (next + 1)) ∷ rest else prev ∷ (r - 1) ∷ (next + 1) ∷ rest)
    else prev ∷ (t - 1 - num) ∷ 1 ∷ (num - b) ∷ next ∷ rest

pub fill_gap-plain :
    (num low high t b prev r next : ℕ) (rest : List ℕ)
    → t + prev < 2 ^ 64
    → t ≡ b + r
    → next ≤ b
    → high ≡ sub64 t 1
    → low ≡ sub64 high r
    → num < t
    → b ≤ num
    → fill_gap num low high prev r (next ∷ rest) ≡ fill_plain num b t prev r next rest
unfolding fill_gap fill_plain
fill_gap-plain num low high t b prev r next rest w et fb eh el lt le = ground arith

module _ (num top t b c prev r next : ℕ) (rest : List ℕ) (n : ℕ) (et : top ≡ t + prev)
    (er : t ≡ b + r) (eb : b ≡ c + next) where
  abbrev Inserted : List ℕ → Type 0
  Inserted l = seen false top l n ≡ ((n == num) || seen false top (prev ∷ r ∷ next ∷ rest) n)

  by_cases :
      (l : List ℕ)
      → (seen false top l n ≡ (
          n == num
          || (if leb t n && ltb n top
              then true
              else if leb c n && ltb n b
              then true
              else if ltb n t && leb b n
              then false
              else seen true c rest n)))
      → Inserted l
  by_cases l h = rw (seen_three top t b c prev r next rest n et er eb) h

  merge_high : num + 1 ≡ t → r ≡ 1 → Inserted ((prev + 1 + next) ∷ rest)
  merge_high h k =
      by_cases _ (ground (arith, seen_cons false top (prev + 1 + next) c rest n (omega arith)))

  extend_high : num + 1 ≡ t → r ≢ 1 → 0 < r → Inserted ((prev + 1) ∷ (r - 1) ∷ next ∷ rest)
  extend_high h k p = by_cases _ (
      ground (
        arith,
        seen_three top num b c (prev + 1) (r - 1) next rest n (omega arith) (omega arith) eb,
      ))

  merge_low : num ≡ b → r ≡ 1 → Inserted ((prev + (next + 1)) ∷ rest)
  merge_low h k =
      by_cases _ (ground (arith, seen_cons false top (prev + (next + 1)) c rest n (omega arith)))

  extend_low : num ≡ b → r ≢ 1 → 0 < r → Inserted (prev ∷ (r - 1) ∷ (next + 1) ∷ rest)
  extend_low h k p = by_cases _ (
      ground (
        arith,
        seen_three top t (b + 1) c prev (r - 1) (next + 1) rest n et (omega arith) (omega arith),
      ))

  split_gap : b < num → num + 1 < t → Inserted (prev ∷ (t - 1 - num) ∷ 1 ∷ (num - b) ∷ next ∷ rest)
  split_gap h k = by_cases _ (
      ground (
        arith,
        seen_three top t (num + 1) num prev (t - 1 - num) 1 ((num - b) ∷ next ∷ rest) n et
            (omega arith) (omega arith),
        seen_cons true num (num - b) b (next ∷ rest) n (omega arith),
        seen_cons false b next c rest n eb,
      ))

pub fill_plain-seen :
    (num top t b c prev r next : ℕ) (rest : List ℕ) (n : ℕ)
    → 0 < r
    → top ≡ t + prev
    → t ≡ b + r
    → b ≡ c + next
    → num < t
    → b ≤ num
    → seen false top (fill_plain num b t prev r next rest) n
      ≡ ((n == num) || seen false top (prev ∷ r ∷ next ∷ rest) n)
unfolding fill_plain
fill_plain-seen num top t b c prev r next rest n pr et er eb lt le = ground (
  arith,
  merge_high num top t b c prev r next rest n et er eb,
  extend_high num top t b c prev r next rest n et er eb,
  merge_low num top t b c prev r next rest n et er eb,
  extend_low num top t b c prev r next rest n et er eb,
  split_gap num top t b c prev r next rest n et er eb,
)
