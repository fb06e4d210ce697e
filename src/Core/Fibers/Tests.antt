-- ===== src/Core/Fibers/Tests.antt =====
-- Frames that arrive in pieces.
use open_weaver.Base.{ℕ, ◌≡◌, refl, none, List, [], ◌∷◌, ◌++◌, arith}
use open_weaver.Bytes.{concat}
use open_weaver.Core.Buffer.{moved_from}
use open_weaver.Core.Fibers.{
  App, result, leftover, sentinel_recv, find, reset_length, length_recv, reset_sentinel,
}
use open_weaver.Core.Fibers.Length.{length_recv-pieces, length_run}
use open_weaver.Core.Fibers.Sentinel.{sentinel_recv-pieces, sentinel_run}

-- The application keeps the frames and does not reset the fiber.
abbrev keep : App (List (List ℕ))
keep frame d = (d ++ (frame ∷ []), none)

abbrev start : List (List ℕ)
start = (1 ∷ 2 ∷ []) ∷ (3 ∷ []) ∷ []

length_recv-pieces_example :
    ((length_run keep (reset_length 4) start []).1 ≡ [])
    × (length_recv keep (length_run keep (reset_length 4) start []).0 (4 ∷ 5 ∷ []) [] ≡ (
      (record { bytes_remaining = 0; buf = moved_from }, (1 ∷ 2 ∷ 3 ∷ 4 ∷ []) ∷ []),
      leftover (5 ∷ []),
    ))
unfolding concat
length_recv-pieces_example =
    length_recv-pieces keep 4 start (4 ∷ 5 ∷ []) [] (omega arith) (omega arith) (omega arith)

sentinel_recv-pieces_example :
    ((sentinel_run keep 10 (reset_sentinel 5) start []).1 ≡ [])
    × (sentinel_recv keep 10
          (sentinel_run keep 10 (reset_sentinel 5) start []).0
          (4 ∷ 10 ∷ 6 ∷ [])
          []
        ≡ ((moved_from, (1 ∷ 2 ∷ 3 ∷ 4 ∷ 10 ∷ []) ∷ []), leftover (6 ∷ [])))
unfolding concat find
sentinel_recv-pieces_example =
    sentinel_recv-pieces keep 10 5 start (4 ∷ 10 ∷ 6 ∷ []) [] (refl, (refl, tt)) (omega arith)
      (omega arith)

too_long_test :
    (sentinel_recv keep 10 (reset_sentinel 2) (4 ∷ 10 ∷ 6 ∷ []) []).1 ≡ leftover (6 ∷ [])
unfolding sentinel_recv reset_sentinel
too_long_test = refl

no_room_test : (sentinel_recv keep 10 (reset_sentinel 1) (4 ∷ 10 ∷ 6 ∷ []) []).1 ≡ result 1
unfolding sentinel_recv reset_sentinel
no_room_test = refl
