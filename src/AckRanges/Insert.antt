-- ===== src/AckRanges/Insert.antt =====
-- `add_packet_number` inserts into the set of seen packet numbers.
use open_weaver.Base.{
  ℕ, zero, suc, ◌+◌, ◌-◌, ◌^◌, ◌≤◌, ◌<◌, ◌≡◌, refl, ◌⊎◌, inl, inr, Bool, true, false, not, ◌||◌,
  List, [], ◌∷◌, arith, ltb, ◌==◌, if◌then◌else◌, ltb→lt, Bool-cases, add64, sub64, length, take,
  All,
}
use open_weaver.AckRanges.{
  fill_gap, walk, resize, add_below, max_ranges, add_packet_number, AckRanges, empty,
}
use open_weaver.AckRanges.Seen.{seen, seen_cons, seen_below, contains}
use open_weaver.AckRanges.Walk.{in_range-plain, walk-seen}
use open_weaver.AckRanges.Valid.{WellFormed, walk-WellFormed, IsValid, Fits-at}

resize_cases :
    (p : Bool × List ℕ)
    → (resize p ≡ p.1) ⊎ ((resize p ≡ take max_ranges p.1) × (max_ranges < length p.1))
unfolding resize
resize_cases (false, l) = inl refl
resize_cases (true, l) = elim (Bool-cases (ltb max_ranges (length l))) [
  | inl e ↦ inr (rw e, ltb→lt _ _ e)
  | inr e ↦ inl (rw e)
]

seen-take :
    (k : ℕ) (gap : Bool) (top : ℕ) (rs : List ℕ) (n : ℕ)
    → seen gap top (take k rs) n ≡ true
    → seen gap top rs n ≡ true
unfolding seen
seen-take zero gap top rs n h = cc
seen-take (suc k) gap top [] n h = cc
seen-take (suc k) gap top (r ∷ rs) n h = ground (arith, seen-take k (not gap) (top - r) rs n)

-- The kind of the range behind `k` ranges.
kind_after : ℕ → Bool → Bool
kind_after zero gap = gap
kind_after (suc k) gap = kind_after k (not gap)

take-WellFormed :
    (k : ℕ) (gap : Bool) (top : ℕ) (rs : List ℕ)
    → k ≤ length rs
    → kind_after k gap ≡ true
    → WellFormed gap top rs
    → WellFormed gap top (take k rs)
unfolding kind_after
take-WellFormed zero gap top rs h e v = (tt, e)
take-WellFormed (suc k) gap top [] h e v = absurd (omega arith)
take-WellFormed (suc k) gap top (r ∷ rs) h e v =
    let ih = take-WellFormed k (not gap) (top - r) rs (omega arith) e (v.0.2, v.1) in
    ((v.0.0, v.0.1, ih.0), ih.1)

kind_after-max_ranges : kind_after max_ranges false ≡ true
unfolding kind_after
kind_after-max_ranges = refl

resize-WellFormed :
    (p : Bool × List ℕ) (top : ℕ) → WellFormed false top p.1 → WellFormed false top (resize p)
resize-WellFormed p top v = elim (resize_cases p) [
  | inl e ↦ rw e v
  | inr (e, h) ↦
      rw e (take-WellFormed max_ranges false top p.1 (omega arith) kind_after-max_ranges v)
]

resize-seen :
    (p : Bool × List ℕ) (top n : ℕ)
    → seen false top (resize p) n ≡ true
    → seen false top p.1 n ≡ true
resize-seen p top n h = elim (resize_cases p) [
  | inl e ↦ rw e at h
  | inr (e, _) ↦ seen-take max_ranges false top p.1 n (rw e at h)
]

length-walk :
    (num high : ℕ) (gap : Bool) (prev : ℕ) (rest : List ℕ)
    → length (walk num high gap prev rest).1 ≤ length rest + 3
unfolding walk fill_gap
length-walk num high gap prev [] = ground arith
length-walk num high gap prev (r ∷ []) =
    ground (arith, length-walk num (sub64 high r) (not gap) r [])
length-walk num high gap prev (r ∷ next ∷ rest) =
    ground (arith, length-walk num (sub64 high r) (not gap) r (next ∷ rest))

resize_short : (p : Bool × List ℕ) → length p.1 ≤ max_ranges → resize p ≡ p.1
resize_short p h = elim (resize_cases p) [ inl e ↦ e | inr (_, k) ↦ absurd (omega arith) ]

module _ (num top r : ℕ) (rest : List ℕ) (w : top + 1 < 2 ^ 64) (le : num ≤ top)
    (v : WellFormed false (top + 1) (r ∷ rest)) where
  add_below-WellFormed : WellFormed false (top + 1) (add_below num top r rest)
  unfolding add_below
  add_below-WellFormed = ground (
    arith,
    in_range-plain num (sub64 top r) top (top + 1) r,
    resize-WellFormed (walk num (sub64 top r) true r rest) (top + 1),
    walk-WellFormed num (sub64 top r) true r rest (top + 1),
  )

  add_below-seen :
      (n : ℕ)
      → length rest + 3 ≤ max_ranges
      → seen false (top + 1) (add_below num top r rest) n
        ≡ (n == num || seen false (top + 1) (r ∷ rest) n)
  unfolding add_below
  add_below-seen n h = ground (
    arith,
    in_range-plain num (sub64 top r) top (top + 1) r,
    resize_short (walk num (sub64 top r) true r rest),
    length-walk num (sub64 top r) true r rest,
    walk-seen num (sub64 top r) true r rest (top + 1) n,
    seen_cons false (top + 1) r (top + 1 - r) rest n,
  )

  add_below-seen_le :
      (n : ℕ)
      → seen false (top + 1) (add_below num top r rest) n ≡ true
      → (n == num || seen false (top + 1) (r ∷ rest) n) ≡ true
  unfolding add_below
  add_below-seen_le n = ground (
    arith,
    in_range-plain num (sub64 top r) top (top + 1) r,
    resize-seen (walk num (sub64 top r) true r rest) (top + 1) n,
    walk-seen num (sub64 top r) true r rest (top + 1) n,
  )

-- A packet number above the largest.
add_above-seen :
    (num top r : ℕ) (rest : List ℕ) (n : ℕ)
    → num + 1 < 2 ^ 64
    → top < num
    → WellFormed false (top + 1) (r ∷ rest)
    → seen false
        (num + 1)
        (if num == add64 top 1 then add64 r 1 ∷ rest else 1 ∷ sub64 (sub64 num top) 1 ∷ r ∷ rest)
        n
      ≡ (n == num || seen false (top + 1) (r ∷ rest) n)
add_above-seen num top r rest n w lt v = ground (
  arith,
  seen_below false (top + 1) (r ∷ rest) n,
  seen_below true (top + 1 - r) rest n,
  seen_cons false (top + 1) r (top + 1 - r) rest n,
  seen_cons false (num + 1) (r + 1) (top + 1 - r) rest n,
  seen_cons false (num + 1) 1 num ((num - top - 1) ∷ r ∷ rest) n,
  seen_cons true num (num - top - 1) (top + 1) (r ∷ rest) n,
)

add_above-WellFormed :
    (num top r : ℕ) (rest : List ℕ)
    → num + 1 < 2 ^ 64
    → top < num
    → WellFormed false (top + 1) (r ∷ rest)
    → WellFormed false
        (num + 1)
        (if num == add64 top 1 then add64 r 1 ∷ rest else 1 ∷ sub64 (sub64 num top) 1 ∷ r ∷ rest)
add_above-WellFormed num top r rest w lt v = ground (
  arith,
  Fits-at (top + 1 - r) (num + 1 - (r + 1)) rest,
  Fits-at (top + 1 - r) (num + 1 - 1 - (num - top - 1) - r) rest,
)

well_formed :
    (top r : ℕ) (rest : List ℕ)
    → IsValid (record { ranges = r ∷ rest; largest = top })
    → WellFormed false (top + 1) (r ∷ rest)
well_formed top r rest v = (v.fits, elim v.ends [ inl e ↦ cc | inr e ↦ e ])

IsValid-add :
    (rs : List ℕ) (top num : ℕ)
    → num + 1 < 2 ^ 64
    → IsValid (record { ranges = rs; largest = top })
    → IsValid (add_packet_number (record { ranges = rs; largest = top }) num)
unfolding add_packet_number
IsValid-add [] top num w v = record { fits = omega arith; ends = inr refl; small = w }
IsValid-add (r ∷ rest) top num w v = elim (Bool-cases (ltb top num)) [
  | inl above ↦ rw above (
      let f = add_above-WellFormed num top r rest w (ltb→lt _ _ above) (well_formed top r rest v) in
      record { fits = f.0; ends = inr f.1; small = w })
  | inr below ↦ rw below (
      let f =
        add_below-WellFormed num top r rest v.small (ground arith) (well_formed top r rest v) in
      record { fits = f.0; ends = inr f.1; small = v.small })
]

-- A valid value stays valid under the insertion of any packet number below 2 ^ 64 - 1, also where
-- the list of ranges is cut to its limit.
pub add_packet_number-IsValid :
    (a : AckRanges) (num : ℕ) → num + 1 < 2 ^ 64 → IsValid a → IsValid (add_packet_number a num)
add_packet_number-IsValid a num w v = IsValid-add a.ranges a.largest num w v

contains-add :
    (rs : List ℕ) (top num n : ℕ)
    → num + 1 < 2 ^ 64
    → IsValid (record { ranges = rs; largest = top })
    → length rs + 2 ≤ max_ranges
    → contains (add_packet_number (record { ranges = rs; largest = top }) num) n
      ≡ (n == num || contains (record { ranges = rs; largest = top }) n)
unfolding add_packet_number contains seen
contains-add [] top num n w v h = ground arith
contains-add (r ∷ rest) top num n w v h = elim (Bool-cases (ltb top num)) [
  | inl above ↦
      rw above (add_above-seen num top r rest n w (ltb→lt _ _ above) (well_formed top r rest v))
  | inr below ↦ rw below (
      add_below-seen num top r rest v.small (ground arith) (well_formed top r rest v) n
        (omega arith))
]

-- On a valid value with at most 999 ranges, a packet number below 2 ^ 64 - 1 is inserted and nothing
-- else changes: afterwards `n` counts as seen exactly if it is the new number or was seen before.
pub contains-add_packet_number :
    (a : AckRanges) (num n : ℕ)
    → num + 1 < 2 ^ 64
    → IsValid a
    → length a.ranges + 2 ≤ max_ranges
    → contains (add_packet_number a num) n ≡ (n == num || contains a n)
contains-add_packet_number a num n w v h = contains-add a.ranges a.largest num n w v h

contains_le-add :
    (rs : List ℕ) (top num n : ℕ)
    → num + 1 < 2 ^ 64
    → IsValid (record { ranges = rs; largest = top })
    → contains (add_packet_number (record { ranges = rs; largest = top }) num) n ≡ true
    → (n == num || contains (record { ranges = rs; largest = top }) n) ≡ true
unfolding add_packet_number contains seen
contains_le-add [] top num n w v h = ground arith
contains_le-add (r ∷ rest) top num n w v h = elim (Bool-cases (ltb top num)) [
  | inl above ↦
      rw (← add_above-seen num top r rest n w (ltb→lt _ _ above) (well_formed top r rest v))
        (rw (above) at h)
  | inr below ↦
      add_below-seen_le num top r rest v.small (ground arith) (well_formed top r rest v) n
        (rw (below) at h)
]

-- Whatever the number of ranges, and also where the list is cut, a valid value never counts a packet
-- number as seen that is neither the new one nor was seen before.
pub add_packet_number_sound :
    (a : AckRanges) (num n : ℕ)
    → num + 1 < 2 ^ 64
    → IsValid a
    → contains (add_packet_number a num) n ≡ true
    → (n ≡ num) ⊎ (contains a n ≡ true)
add_packet_number_sound a num n w v h =
    ground (arith, contains_le-add a.ranges a.largest num n w v h)

-- The packet numbers of a connection, in the order in which they came.
unfoldable pub add_all : AckRanges → List ℕ → AckRanges
add_all a [] = a
add_all a (num ∷ nums) = add_all (add_packet_number a num) nums

abbrev pub elem : ℕ → List ℕ → Bool
elem n [] = false
elem n (x ∷ xs) = n == x || elem n xs

abbrev pub Below : List ℕ → Type 0
Below = All (λ n. n + 1 < 2 ^ 64)

add_all_le :
    (a : AckRanges) (nums : List ℕ) (n : ℕ)
    → Below nums
    → IsValid a
    → contains (add_all a nums) n ≡ true
    → (elem n nums || contains a n) ≡ true
unfolding add_all
add_all_le a [] n b v h = h
add_all_le a (num ∷ nums) n b v h = ground (
  arith,
  add_all_le (add_packet_number a num) nums n b.1 (add_packet_number-IsValid a num b.0 v) h,
  contains_le-add a.ranges a.largest num n b.0 v,
)

empty-IsValid : IsValid empty
empty-IsValid = record { fits = tt; ends = inl refl; small = omega arith }

-- After any history of packet numbers below 2 ^ 64 - 1, a receiver that started from nothing counts
-- only packet numbers as seen that it was given: it never acknowledges what did not arrive.
pub add_all_sound :
    (nums : List ℕ) (n : ℕ)
    → Below nums
    → contains (add_all empty nums) n ≡ true
    → elem n nums ≡ true
unfolding contains seen
add_all_sound nums n b h = ground (arith, add_all_le empty nums n b empty-IsValid h)
