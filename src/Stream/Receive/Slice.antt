-- ===== src/Stream/Receive/Slice.antt =====
-- The bytes of a stream as slices of a sequence, and the packets and deliveries that hold them.
use open_weaver.Base.{
  ℕ, zero, suc, ◌+◌, ◌-◌, ◌^◌, ◌<◌, ◌≡◌, refl, ap, List, [], ◌∷◌, ◌++◌, arith, ◌==◌, if◌then◌else◌,
  length, drop,
}
use native.Mathlib.Nat.{add-zero, zero-add}
use open_weaver.Dict.{Dict, assign}
use open_weaver.Stream.Types.{Effect, delivers, RecvPacketInfo}

-- The `n` bytes of a stream from an offset on.
unfoldable pub slice : (ℕ → ℕ) → ℕ → ℕ → List ℕ
slice f o zero = []
slice f o (suc n) = f o ∷ slice f (o + 1) n

pub length-slice : (f : ℕ → ℕ) (o n : ℕ) → length (slice f o n) ≡ n
unfolding slice
length-slice f o zero = refl
length-slice f o (suc n) = ap suc (length-slice f (o + 1) n)

pub slice-append : (f : ℕ → ℕ) (o m n : ℕ) → slice f o m ++ slice f (o + m) n ≡ slice f o (m + n)
unfolding slice
slice-append f o zero n = rw (add-zero, zero-add)
slice-append f o (suc m) n =
    let e : o + suc m ≡ o + 1 + m = omega arith in
    let e' : suc m + n ≡ suc (m + n) = omega arith in
    rw (e, e') (ap (λ l. f o ∷ l) (slice-append f (o + 1) m n))

pub drop-slice : (f : ℕ → ℕ) (o k n : ℕ) → drop k (slice f o n) ≡ slice f (o + k) (n - k)
unfolding slice
drop-slice f o zero n =
    let e : o + 0 ≡ o = omega arith in let e' : n - 0 ≡ n = omega arith in rw (e, e')
drop-slice f o (suc k) zero = let e : 0 - suc k ≡ 0 = omega arith in rw e
drop-slice f o (suc k) (suc n) =
    let e : o + suc k ≡ o + 1 + k = omega arith in
    let e' : suc n - suc k ≡ n - k = omega arith in rw (e, e') (drop-slice f (o + 1) k n)

-- The bytes that stream `id` gave to the delegate, the oldest first.
unfoldable pub delivered : ℕ → List Effect → List ℕ
delivered id [] = []
delivered id (delivers bytes j ∷ out) = delivered id out ++ (if j == id then bytes else [])
delivered id (_ ∷ out) = delivered id out

-- A packet that carries the bytes of the stream `f` at its offset.
pub record Carries (f : ℕ → ℕ) (p : RecvPacketInfo) : Type 0 where
  pub bytes : p.packet ≡ slice f p.offset p.length
  pub fits : p.offset + p.length < 2 ^ 64

abbrev pub AllCarry : (ℕ → ℕ) → Dict RecvPacketInfo → Type 0
AllCarry f [] = Unit {0}
AllCarry f ((key, p) ∷ m) = Carries f p × AllCarry f m

pub assign-AllCarry :
    {f : ℕ → ℕ} (p : RecvPacketInfo) (m : Dict RecvPacketInfo) (k : ℕ)
    → Carries f p
    → AllCarry f m
    → AllCarry f (assign k p m)
unfolding assign
assign-AllCarry p [] k c h = (c, tt)
assign-AllCarry p ((j, q) ∷ m) k c h = ground (arith, assign-AllCarry p m k c h.1)
