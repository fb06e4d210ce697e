-- ===== src/AckRanges.antt =====
-- stream/include/marlin/stream/protocol/AckRanges.hpp: the packet numbers that a receiver has seen,
-- as alternating lengths of runs of seen and unseen numbers, counted down from the largest.
pub mod Seen
pub mod Gap
pub mod Walk
pub mod Valid
pub mod Insert
mod Tests
use open_weaver.Base.{
  ℕ, ◌+◌, ◌<◌, Bool, true, false, not, ◌&&◌, List, [], ◌∷◌, ltb, leb, ◌==◌, if◌then◌else◌, length,
  take, add64, sub64,
}

pub record AckRanges : Type 0 where
  pub ranges : List ℕ
  pub largest : ℕ

-- `AckRanges()`: `largest` is not initialised; it is not read while `ranges` is empty.
abbrev pub empty : AckRanges
empty = record { ranges = []; largest = 0 }

-- The length at which the list is cut.
abbrev pub max_ranges : ℕ
max_ranges = 1001

-- num lies in (low, high].
abbrev pub in_range : ℕ → ℕ → ℕ → Bool
in_range num low high = leb num high && leb (add64 low 1) num

-- `num` lies in the gap `(low, high]` of length `r`, between the run `prev` and those in `rest`;
-- the result is the list from `prev` on. A gap with no run behind it is not dereferenced.
unfoldable pub fill_gap : ℕ → ℕ → ℕ → ℕ → ℕ → List ℕ → List ℕ
fill_gap num low high prev r [] = prev ∷ r ∷ []
fill_gap num low high prev r (next ∷ rest) =
    if num == high
    then (if sub64 r 1 == 0
        then add64 (add64 prev 1) next ∷ rest
        else add64 prev 1 ∷ sub64 r 1 ∷ next ∷ rest)
    else if num == add64 low 1
    then (if sub64 r 1 == 0
        then add64 prev (add64 next 1) ∷ rest
        else prev ∷ sub64 r 1 ∷ add64 next 1 ∷ rest)
    else prev ∷ sub64 high num ∷ 1 ∷ sub64 num (add64 low 1) ∷ next ∷ rest

-- The loop from its second round on: `prev` is the range before the iterator. The result says
-- whether the loop ran to the end, and gives the list from `prev` on.
unfoldable pub walk : ℕ → ℕ → Bool → ℕ → List ℕ → Bool × List ℕ
walk num high gap prev [] =
    if high == num then (true, add64 prev 1 ∷ []) else (true, prev ∷ sub64 high num ∷ 1 ∷ [])
walk num high gap prev (r ∷ rest) =
    let next = walk num (sub64 high r) (not gap) r rest in
    if in_range num (sub64 high r) high
    then (false, if gap then fill_gap num (sub64 high r) high prev r rest else prev ∷ r ∷ rest)
    else (next.0, prev ∷ next.1)

-- `ranges.resize(1001)`, which only the path to the end of the list reaches.
unfoldable pub resize : Bool × List ℕ → List ℕ
resize (at_end, ranges) =
    if at_end && ltb max_ranges (length ranges) then take max_ranges ranges else ranges

-- The first round of the loop, which no range precedes.
unfoldable pub add_below : ℕ → ℕ → ℕ → List ℕ → List ℕ
unfolding resize
add_below num high r rest =
    if in_range num (sub64 high r) high
    then r ∷ rest
    else resize (walk num (sub64 high r) true r rest)

unfoldable pub add_packet_number : AckRanges → ℕ → AckRanges
add_packet_number a num = elim a.ranges [
  | [] ↦ record { ranges = 1 ∷ []; largest = num }
  | r ∷ rest ↦
      if ltb a.largest num
      then record {
        ranges =
            if num == add64 a.largest 1
            then add64 r 1 ∷ rest
            else 1 ∷ sub64 (sub64 num a.largest) 1 ∷ r ∷ rest;
        largest = num;
      }
      else record a { ranges = add_below num a.largest r rest }
]
