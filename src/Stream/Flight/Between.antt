-- ===== src/Stream/Flight/Between.antt =====
-- The packets of a range, and packets without one that is acknowledged.
use open_weaver.Base.{
  ℕ, ◌^◌, ◌<◌, ◌≡◌, refl, inl, inr, false, ◌&&◌, Option, some, [], ◌∷◌, arith, leb, ◌==◌, ==_refl,
  Bool-cases,
}
use open_weaver.Dict.{Dict, lookup, erase, lookup-erase}
use open_weaver.Dict.Sorted.{Sorted, KeysAbove}
use open_weaver.Stream.Types.{SentPacketInfo}
use open_weaver.Stream.Ack.{between}
use open_weaver.Stream.Flight.{FitLengths}

pub FitLengths-erase : (k : ℕ) (m : Dict SentPacketInfo) → FitLengths m → FitLengths (erase k m)
unfolding erase
FitLengths-erase k [] h = tt
FitLengths-erase k ((j, q) ∷ m) h = ground (arith, FitLengths-erase k m h.1)

pub FitLengths-lookup :
    (k : ℕ) (p : SentPacketInfo) (m : Dict SentPacketInfo)
    → FitLengths m
    → lookup k m ≡ some p
    → p.length < 2 ^ 64
unfolding lookup
FitLengths-lookup k p [] h q = ground arith
FitLengths-lookup k p ((j, r) ∷ m) h q = elim (Bool-cases (j == k)) [
  | inl here ↦
      let e : ◌≡◌ {A = Option SentPacketInfo} (some r) (some p) = rw here at q in
      ground (arith, h.0)
  | inr there ↦ FitLengths-lookup k p m h.1 (rw there at q)
]

-- The packets of `l` stand in `m`.
abbrev pub Found : Dict SentPacketInfo → Dict SentPacketInfo → Type 0
Found [] m = Unit {0}
Found ((key, p) ∷ l) m = (lookup key m ≡ some p) × Found l m

pub Found-cons :
    (j : ℕ) (q : SentPacketInfo) (l m : Dict SentPacketInfo)
    → KeysAbove j l
    → Found l m
    → Found l ((j, q) ∷ m)
unfolding lookup
Found-cons j q [] m a h = tt
Found-cons j q ((key, p) ∷ l) m a h = (ground (arith, a.0, h.0), Found-cons j q l m a.1 h.1)

pub Found-erase :
    (j : ℕ) (l m : Dict SentPacketInfo) → KeysAbove j l → Found l m → Found l (erase j m)
Found-erase j [] m a h = tt
Found-erase j ((key, p) ∷ l) m a h =
    let ne : (j == key) ≡ false = ground (arith, a.0) in
    (rw (lookup-erase j key m, ne) h.0, Found-erase j l m a.1 h.1)

pub between-KeysAbove :
    (j lo hi : ℕ) (m : Dict SentPacketInfo) → KeysAbove j m → KeysAbove j (between lo hi m)
unfolding between
between-KeysAbove j lo hi [] h = tt
between-KeysAbove j lo hi ((key, p) ∷ m) h = ground (arith, between-KeysAbove j lo hi m h.1, h.0)

pub between-Sorted : (lo hi : ℕ) (m : Dict SentPacketInfo) → Sorted m → Sorted (between lo hi m)
unfolding between
between-Sorted lo hi [] h = tt
between-Sorted lo hi ((key, p) ∷ m) h =
    ground (arith, between-Sorted lo hi m h.1, between-KeysAbove key lo hi m h.0)

pub between-Found : (lo hi : ℕ) (m : Dict SentPacketInfo) → Sorted m → Found (between lo hi m) m
unfolding between lookup
between-Found lo hi [] h = tt
between-Found lo hi ((key, p) ∷ m) h =
    let tail =
      Found-cons key p (between lo hi m) m (between-KeysAbove key lo hi m h.0)
        (between-Found lo hi m h.1) in
    elim (Bool-cases (leb lo key && leb key hi)) [
      | inl in_it ↦ rw (between, in_it) (rw (==_refl key) refl, tail)
      | inr out ↦ rw (between, out) tail
    ]
