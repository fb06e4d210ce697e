-- ===== src/AckRanges/Tests.antt =====
-- Runs of `add_packet_number`, and its theorems at concrete values.
use open_weaver.Base.{ℕ, ◌≡◌, refl, ◌⊎◌, inr, true, ◌||◌, List, [], ◌∷◌, arith, ◌==◌}
use open_weaver.AckRanges.{AckRanges, empty, add_packet_number, fill_gap, walk, resize, add_below}
use open_weaver.AckRanges.Seen.{seen, contains}
use open_weaver.AckRanges.Valid.{IsValid}
use open_weaver.AckRanges.Insert.{
  add_packet_number-IsValid, contains-add_packet_number, add_packet_number_sound, add_all, elem,
  add_all_sound,
}

-- 9, 8, 4 and 3 have come.
abbrev gapped : AckRanges
gapped = record { ranges = 2 ∷ 3 ∷ 2 ∷ []; largest = 9 }

gapped-IsValid : IsValid gapped
gapped-IsValid = record { fits = omega arith; ends = inr refl; small = omega arith }

-- 7 lengthens the first run, 6 splits the gap, and 2 lengthens the last run.
fills_gap :
    (add_packet_number gapped 7 ≡ record gapped { ranges = 3 ∷ 2 ∷ 2 ∷ [] })
    × (add_packet_number gapped 6 ≡ record gapped { ranges = 2 ∷ 1 ∷ 1 ∷ 1 ∷ 2 ∷ [] })
    × (add_packet_number gapped 2 ≡ record gapped { ranges = 2 ∷ 3 ∷ 3 ∷ [] })
    × (add_packet_number gapped 0 ≡ record gapped { ranges = 2 ∷ 3 ∷ 2 ∷ 2 ∷ 1 ∷ [] })
unfolding add_packet_number add_below resize walk fill_gap
fills_gap = (refl, refl, refl, refl)

-- Packet number 0 is found although the lower end of its range wraps.
counts_zero :
    add_packet_number (record { ranges = 1 ∷ []; largest = 0 }) 0
    ≡ record { ranges = 1 ∷ []; largest = 0 }
unfolding add_packet_number add_below resize walk fill_gap
counts_zero = refl

add_packet_number-IsValid_example : IsValid (add_packet_number gapped 6)
add_packet_number-IsValid_example = add_packet_number-IsValid gapped 6 (omega arith) gapped-IsValid

contains-add_packet_number_example :
    contains (add_packet_number gapped 6) 6 ≡ (6 == 6 || contains gapped 6)
contains-add_packet_number_example =
    contains-add_packet_number gapped 6 6 (omega arith) gapped-IsValid (omega arith)

abbrev history : List ℕ
history = 0 ∷ 1 ∷ 5 ∷ 3 ∷ 4 ∷ []

history_seen : contains (add_all empty history) 3 ≡ true
unfolding add_all add_packet_number add_below resize walk fill_gap contains seen
history_seen = refl

added_seen : contains (add_packet_number gapped 6) 4 ≡ true
unfolding add_packet_number add_below resize walk fill_gap contains seen
added_seen = refl

add_packet_number_sound_example : (◌≡◌ {A = ℕ} 4 6) ⊎ (contains gapped 4 ≡ true)
add_packet_number_sound_example =
    add_packet_number_sound gapped 6 4 (omega arith) gapped-IsValid added_seen

add_all_sound_example : elem 3 history ≡ true
add_all_sound_example = add_all_sound history 3 (omega arith) history_seen
