-- ===== src/Dict.antt =====
-- `std::map` and `std::unordered_map` with unsigned keys, as lists sorted by key. The order of an
-- `unordered_map` is not observed by the code that is modelled.
pub mod Sorted
use open_weaver.Base.{
  ℕ, ◌+◌, ◌≤◌, ◌<◌, ◌≡◌, refl, Option, none, some, List, [], ◌∷◌, arith, ltb, ◌==◌, if◌then◌else◌,
}

abbrev pub Dict {ℓ} : Type ℓ → Type ℓ
Dict V = List (ℕ × V)

module _ {ℓ} {V : Type ℓ} where
  -- `find`
  unfoldable pub lookup : ℕ → Dict V → Option V
  lookup k [] = none
  lookup k ((j, v) ∷ m) = if j == k then some v else lookup k m

  -- `m[k] = v`
  unfoldable pub assign : ℕ → V → Dict V → Dict V
  assign k v [] = (k, v) ∷ []
  assign k v ((j, w) ∷ m) =
      if j == k then (k, v) ∷ m else if ltb k j then (k, v) ∷ (j, w) ∷ m else (j, w) ∷ assign k v m

  -- `try_emplace` and `emplace`: an entry that is there stays.
  unfoldable pub try_emplace : ℕ → V → Dict V → Dict V
  try_emplace k v m = elim (lookup k m) [ none ↦ assign k v m | some w ↦ m ]

  unfoldable pub erase : ℕ → Dict V → Dict V
  erase k [] = []
  erase k ((j, w) ∷ m) = if j == k then erase k m else (j, w) ∷ erase k m

  pub lookup-assign :
      (k j : ℕ) (v : V) (m : Dict V)
      → lookup j (assign k v m) ≡ (if k == j then some v else lookup j m)
  unfolding lookup assign
  lookup-assign k j v [] = refl
  lookup-assign k j v ((i, w) ∷ m) = ground (arith, lookup-assign k j v m)

  pub lookup-try_emplace :
      (k : ℕ) (v : V) (m : Dict V)
      → lookup k (try_emplace k v m)
        ≡ some (elim (lookup k m) as (λ _. V) [ none ↦ v | some w ↦ w ])
  unfolding try_emplace
  lookup-try_emplace k v m = ground (arith, lookup-assign k k v m)

  pub lookup-erase :
      (k j : ℕ) (m : Dict V) → lookup j (erase k m) ≡ (if k == j then none else lookup j m)
  unfolding lookup erase
  lookup-erase k j [] = ground arith
  lookup-erase k j ((i, w) ∷ m) = ground (arith, lookup-erase k j m)

  -- The total of a measure over the values.
  unfoldable pub total : (V → ℕ) → Dict V → ℕ
  total f [] = 0
  total f ((j, v) ∷ m) = f v + total f m

  pub total-assign :
      (f : V → ℕ) (k : ℕ) (v : V) (m : Dict V)
      → lookup k m ≡ none
      → total f (assign k v m) ≡ total f m + f v
  unfolding total assign lookup
  total-assign f k v [] h = omega arith
  total-assign f k v ((j, w) ∷ m) h = ground (arith, total-assign f k v m)

  pub total-try_emplace :
      (f : V → ℕ) (k : ℕ) (v : V) (m : Dict V)
      → lookup k m ≡ none
      → total f (try_emplace k v m) ≡ total f m + f v
  unfolding try_emplace
  total-try_emplace f k v m h = ground (arith, total-assign f k v m h)

  -- Every key is below `n`.
  abbrev pub KeysBelow : ℕ → Dict V → Type 0
  KeysBelow n [] = Unit {0}
  KeysBelow n ((j, v) ∷ m) = (j < n) × KeysBelow n m

  pub lookup-KeysBelow : (n k : ℕ) (m : Dict V) → KeysBelow n m → n ≤ k → lookup k m ≡ none
  unfolding lookup
  lookup-KeysBelow n k [] b h = refl
  lookup-KeysBelow n k ((j, v) ∷ m) b h = ground (arith, lookup-KeysBelow n k m b.1 h)
