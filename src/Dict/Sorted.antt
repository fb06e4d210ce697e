-- ===== src/Dict/Sorted.antt =====
-- Dictionaries whose keys rise, as those of a `std::map` do.
use open_weaver.Base.{
  ℕ, ◌+◌, ◌≤◌, ◌<◌, ◌≡◌, refl, inl, inr, some, [], ◌∷◌, arith, ltb, ◌==◌, ltb→lt, ==_iff,
  Bool-cases,
}
use open_weaver.Dict.{Dict, lookup, assign, erase, total, KeysBelow}

module _ {ℓ} {V : Type ℓ} where
  -- Every key is above `n`.
  abbrev pub KeysAbove : ℕ → Dict V → Type 0
  KeysAbove n [] = Unit {0}
  KeysAbove n ((j, v) ∷ m) = (n < j) × KeysAbove n m

  abbrev pub Sorted : Dict V → Type 0
  Sorted [] = Unit {0}
  Sorted ((j, v) ∷ m) = KeysAbove j m × Sorted m

  pub KeysAbove-weaken : (n k : ℕ) (m : Dict V) → k ≤ n → KeysAbove n m → KeysAbove k m
  KeysAbove-weaken n k [] le h = tt
  KeysAbove-weaken n k ((j, v) ∷ m) le h = (omega (arith, h.0), KeysAbove-weaken n k m le h.1)

  KeysAbove-assign :
      (n k : ℕ) (v : V) (m : Dict V) → n < k → KeysAbove n m → KeysAbove n (assign k v m)
  unfolding assign
  KeysAbove-assign n k v [] lt h = (lt, tt)
  KeysAbove-assign n k v ((j, w) ∷ m) lt h = ground (arith, KeysAbove-assign n k v m lt h.1)

  pub Sorted-assign : (k : ℕ) (v : V) (m : Dict V) → Sorted m → Sorted (assign k v m)
  unfolding assign
  Sorted-assign k v [] h = (tt, tt)
  Sorted-assign k v ((j, w) ∷ m) h = elim (Bool-cases (j == k)) [
    | inl e ↦ ground (arith, h.0)
    | inr ne ↦ elim (Bool-cases (ltb k j)) [
      | inl lt ↦ rw (ne, lt) ((ltb→lt _ _ lt, KeysAbove-weaken j k m (ground arith) h.0), h)
      | inr ge ↦ rw (ne, ge) (KeysAbove-assign j k v m (ground arith) h.0, Sorted-assign k v m h.1)
    ]
  ]

  KeysAbove-erase : (n k : ℕ) (m : Dict V) → KeysAbove n m → KeysAbove n (erase k m)
  unfolding erase
  KeysAbove-erase n k [] h = tt
  KeysAbove-erase n k ((j, w) ∷ m) h = ground (arith, KeysAbove-erase n k m h.1)

  pub Sorted-erase : (k : ℕ) (m : Dict V) → Sorted m → Sorted (erase k m)
  unfolding erase
  Sorted-erase k [] h = tt
  Sorted-erase k ((j, w) ∷ m) h = ground (arith, Sorted-erase k m h.1, KeysAbove-erase j k m h.0)

  pub KeysBelow-erase : (n k : ℕ) (m : Dict V) → KeysBelow n m → KeysBelow n (erase k m)
  unfolding erase
  KeysBelow-erase n k [] h = tt
  KeysBelow-erase n k ((j, w) ∷ m) h = ground (arith, KeysBelow-erase n k m h.1)

  pub KeysBelow-weaken : (n k : ℕ) (m : Dict V) → n ≤ k → KeysBelow n m → KeysBelow k m
  KeysBelow-weaken n k [] le h = tt
  KeysBelow-weaken n k ((j, v) ∷ m) le h = (omega (arith, h.0), KeysBelow-weaken n k m le h.1)

  pub KeysBelow-assign :
      (n k : ℕ) (v : V) (m : Dict V) → k < n → KeysBelow n m → KeysBelow n (assign k v m)
  unfolding assign
  KeysBelow-assign n k v [] lt h = (lt, tt)
  KeysBelow-assign n k v ((j, w) ∷ m) lt h = ground (arith, KeysBelow-assign n k v m lt h.1)

  erase_absent : (k n : ℕ) (m : Dict V) → k ≤ n → KeysAbove n m → erase k m ≡ m
  unfolding erase
  erase_absent k n [] le h = refl
  erase_absent k n ((j, v) ∷ m) le h = ground (arith, erase_absent k n m le h.1, h.0)

  lookup-KeysAbove : (k n : ℕ) (v : V) (m : Dict V) → KeysAbove n m → lookup k m ≡ some v → n < k
  unfolding lookup
  lookup-KeysAbove k n v ((j, w) ∷ m) a h = ground (arith, lookup-KeysAbove k n v m a.1, a.0)
  lookup-KeysAbove k n v [] a h = ground arith

  -- The total without one entry.
  pub total-erase :
      (f : V → ℕ) (k : ℕ) (v : V) (m : Dict V)
      → Sorted m
      → lookup k m ≡ some v
      → total f m ≡ total f (erase k m) + f v
  unfolding total erase lookup
  total-erase f k v [] s h = ground arith
  total-erase f k v ((j, w) ∷ m) s h = elim (Bool-cases (j == k)) [
    | inl e ↦
        let gone = erase_absent k j m (omega (arith, (==_iff j k).0 e)) s.0 in
        ground (arith, gone, h)
    | inr ne ↦ rw (ne) (let r = total-erase f k v m s.1 (rw ne at h) in omega arith)
  ]
