-- ===== src/AckRanges/Walk.antt =====
-- The loop of `add_packet_number` adds its number, and keeps the ranges well formed.
use open_weaver.Base.{
  ℕ, ◌-◌, ◌^◌, ◌≤◌, ◌<◌, ◌≡◌, Bool, true, false, not, ◌||◌, List, [], ◌∷◌, arith, leb, ◌==◌, sub64,
}
use open_weaver.AckRanges.{walk, in_range}
use open_weaver.AckRanges.Seen.{seen, Fits, EndsSeen, seen_cons}
use open_weaver.AckRanges.Gap.{fill_gap-plain, fill_plain-seen}

pub in_range-plain :
    (num low high t r : ℕ)
    → t < 2 ^ 64
    → 0 < r
    → r ≤ t
    → num < t
    → high ≡ sub64 t 1
    → low ≡ sub64 high r
    → in_range num low high ≡ leb (t - r) num
in_range-plain num low high t r w p le lt eh el = ground arith

module _ (num high prev top : ℕ) (n : ℕ) (w : top < 2 ^ 64) (eh : high ≡ sub64 (top - prev) 1)
    (lt : num < top - prev) where
  end-seen :
      Fits top (prev ∷ [])
      → seen false top (walk num high true prev []).1 n ≡ (n == num || seen false top (prev ∷ []) n)
  unfolding walk seen
  end-seen f = ground arith

pub walk-seen :
    (num high : ℕ) (gap : Bool) (prev : ℕ) (rest : List ℕ) (top n : ℕ)
    → top < 2 ^ 64
    → high ≡ sub64 (top - prev) 1
    → num < top - prev
    → Fits top (prev ∷ rest)
    → EndsSeen (not gap) (prev ∷ rest)
    → seen (not gap) top (walk num high gap prev rest).1 n
      ≡ (n == num || seen (not gap) top (prev ∷ rest) n)
unfolding walk
walk-seen num high false prev [] top n w eh lt f e = cc
walk-seen num high true prev [] top n w eh lt f e = end-seen num high prev top n w eh lt f
walk-seen num high true prev (r ∷ []) top n w eh lt f e = cc
walk-seen num high true prev (r ∷ next ∷ rest) top n w eh lt f e = ground (
  arith,
  in_range-plain num (sub64 high r) high (top - prev) r,
  fill_gap-plain num (sub64 high r) high (top - prev) (top - prev - r) prev r next rest,
  fill_plain-seen num top (top - prev) (top - prev - r) (top - prev - r - next) prev r next rest n,
  seen_cons false top prev (top - prev) (r ∷ next ∷ rest) n,
  seen_cons false top prev (top - prev) (walk num (sub64 high r) false r (next ∷ rest)).1 n,
  walk-seen num (sub64 high r) false r (next ∷ rest) (top - prev) n,
)
walk-seen num high false prev (r ∷ rest) top n w eh lt f e = ground (
  arith,
  in_range-plain num (sub64 high r) high (top - prev) r,
  seen_cons true top prev (top - prev) (r ∷ rest) n,
  seen_cons false (top - prev) r (top - prev - r) rest n,
  seen_cons true top prev (top - prev) (walk num (sub64 high r) true r rest).1 n,
  walk-seen num (sub64 high r) true r rest (top - prev) n,
)
