-- ===== src/Bytes.antt =====
-- Numbers as bytes, lowest byte first, and the parts of a list of bytes that a copy writes.
use mathlib.Core.List.{append_assoc}
use native.Mathlib.Nat.{pow-suc}
use open_weaver.Base.{
  ℕ, zero, suc, ◌+◌, ◌-◌, ◌*◌, ◌/◌, ◌%◌, ◌^◌, ◌≤◌, ◌<◌, ◌≡◌, refl, sym, ap, subst, ◌⊎◌, inl, inr,
  List, [], ◌∷◌, ◌++◌, arith, length, take, drop, length-append, length-drop, All, ◌∙◌,
}

unfoldable pub le : ℕ → ℕ → List ℕ
le zero x = []
le (suc n) x = x % 256 ∷ le n (x / 256)

unfoldable pub of_le : List ℕ → ℕ
of_le [] = 0
of_le (b ∷ bs) = b + 256 * of_le bs

abbrev pub IsByte : ℕ → Type 0
IsByte b = b < 256

pub of_le-le : (n x : ℕ) → x < 256 ^ n → of_le (le n x) ≡ x
unfolding of_le le
of_le-le zero x h = omega arith
of_le-le (suc n) x h = omega (arith, of_le-le n (x / 256) (omega (arith, pow-suc 256 n)))

pub le-of_le : (bs : List ℕ) → All IsByte bs → le (length bs) (of_le bs) ≡ bs
unfolding of_le le
le-of_le [] h = refl
le-of_le (b ∷ bs) h = ground (arith, h.0, le-of_le bs h.1)

pub length-le : (n x : ℕ) → length (le n x) ≡ n
unfolding le
length-le zero x = refl
length-le (suc n) x = ap suc (length-le n (x / 256))

pub le-AllIsByte : (n x : ℕ) → All IsByte (le n x)
unfolding le
le-AllIsByte zero x = tt
le-AllIsByte (suc n) x = (omega arith, le-AllIsByte n (x / 256))

unfoldable pub reverse : List ℕ → List ℕ
reverse [] = []
reverse (x ∷ xs) = reverse xs ++ (x ∷ [])

pub length-reverse : (xs : List ℕ) → length (reverse xs) ≡ length xs
unfolding reverse
length-reverse [] = refl
length-reverse (x ∷ xs) = omega (arith, length-append (reverse xs) (x ∷ []), length-reverse xs)

reverse-append_one : (xs : List ℕ) (x : ℕ) → reverse (xs ++ (x ∷ [])) ≡ x ∷ reverse xs
unfolding reverse
reverse-append_one [] x = refl
reverse-append_one (y ∷ xs) x = rw (reverse-append_one xs x) refl

pub reverse-reverse : (xs : List ℕ) → reverse (reverse xs) ≡ xs
unfolding reverse
reverse-reverse [] = refl
reverse-reverse (x ∷ xs) = rw (reverse-append_one (reverse xs) x, reverse-reverse xs) refl

All-append : (xs ys : List ℕ) → All IsByte xs → All IsByte ys → All IsByte (xs ++ ys)
All-append [] ys h k = k
All-append (x ∷ xs) ys h k = (h.0, All-append xs ys h.1 k)

pub reverse-AllIsByte : (xs : List ℕ) → All IsByte xs → All IsByte (reverse xs)
unfolding reverse
reverse-AllIsByte [] h = tt
reverse-AllIsByte (x ∷ xs) h = All-append (reverse xs) (x ∷ []) (reverse-AllIsByte xs h.1) (h.0, tt)

-- `memcpy` of `bytes` to the place `pos` of a memory; nothing is written past the end.
unfoldable pub splice : (pos : ℕ) (bytes memory : List ℕ) → List ℕ
splice zero [] m = m
splice zero (b ∷ bs) [] = []
splice zero (b ∷ bs) (x ∷ m) = b ∷ splice zero bs m
splice (suc p) bs [] = []
splice (suc p) bs (x ∷ m) = x ∷ splice p bs m

pub length-splice : (p : ℕ) (bs m : List ℕ) → length (splice p bs m) ≡ length m
unfolding splice
length-splice zero [] m = refl
length-splice zero (b ∷ bs) [] = refl
length-splice zero (b ∷ bs) (x ∷ m) = ap suc (length-splice zero bs m)
length-splice (suc p) bs [] = refl
length-splice (suc p) bs (x ∷ m) = ap suc (length-splice p bs m)

splice-empty : (p : ℕ) (m : List ℕ) → splice p [] m ≡ m
unfolding splice
splice-empty zero m = refl
splice-empty (suc p) [] = refl
splice-empty (suc p) (x ∷ m) = ap (λ l. x ∷ l) (splice-empty p m)

pub splice-at_end : (p : ℕ) (bs : List ℕ) → splice p bs [] ≡ []
unfolding splice
splice-at_end zero [] = refl
splice-at_end zero (b ∷ bs) = refl
splice-at_end (suc p) bs = refl

pub drop-splice : (s p : ℕ) (bs m : List ℕ) → drop s (splice (s + p) bs m) ≡ splice p bs (drop s m)
unfolding splice
drop-splice zero p bs m = let e : 0 + p ≡ p = omega arith in rw e refl
drop-splice (suc s) p bs [] =
    let e : suc s + p ≡ suc (s + p) = omega arith in rw (e, splice-at_end p bs) refl
drop-splice (suc s) p bs (x ∷ m) =
    let e : suc s + p ≡ suc (s + p) = omega arith in rw e (drop-splice s p bs m)

pub take-splice : (k p : ℕ) (bs m : List ℕ) → take k (splice p bs m) ≡ splice p bs (take k m)
unfolding splice
take-splice zero p bs m = sym (splice-at_end p bs)
take-splice (suc k) zero [] m = refl
take-splice (suc k) zero (b ∷ bs) [] = refl
take-splice (suc k) zero (b ∷ bs) (x ∷ m) = ap (λ l. b ∷ l) (take-splice k zero bs m)
take-splice (suc k) (suc p) bs [] = refl
take-splice (suc k) (suc p) bs (x ∷ m) = ap (λ l. x ∷ l) (take-splice k p bs m)

take-splice_zero : (bs m : List ℕ) → length bs ≤ length m → take (length bs) (splice 0 bs m) ≡ bs
unfolding splice
take-splice_zero [] m h = refl
take-splice_zero (b ∷ bs) [] h = absurd (omega arith)
take-splice_zero (b ∷ bs) (x ∷ m) h = ap (λ l. b ∷ l) (take-splice_zero bs m (omega arith))

-- What a copy has written is read back.
pub take-drop-splice :
    (p : ℕ) (bs m : List ℕ)
    → p + length bs ≤ length m
    → take (length bs) (drop p (splice p bs m)) ≡ bs
take-drop-splice p bs m h =
    let e : p + 0 ≡ p = omega arith in
    let split : drop p (splice p bs m) ≡ splice 0 bs (drop p m) =
      subst (λ q. drop p (splice q bs m) ≡ splice 0 bs (drop p m)) e (drop-splice p 0 bs m) in
    rw split (take-splice_zero bs (drop p m) (omega (arith, length-drop p m)))

-- A copy leaves what is before and what is behind it.
pub take-splice_before : (k p : ℕ) (bs m : List ℕ) → k ≤ p → take k (splice p bs m) ≡ take k m
unfolding splice
take-splice_before zero p bs m h = refl
take-splice_before (suc k) zero bs m h = absurd (omega arith)
take-splice_before (suc k) (suc p) bs [] h = refl
take-splice_before (suc k) (suc p) bs (x ∷ m) h =
    ap (λ l. x ∷ l) (take-splice_before k p bs m (omega arith))

pub drop-splice_behind :
    (k p : ℕ) (bs m : List ℕ) → p + length bs ≤ k → drop k (splice p bs m) ≡ drop k m
unfolding splice
drop-splice_behind zero p [] m h = rw (splice-empty p m) refl
drop-splice_behind zero p (b ∷ bs) m h = absurd (omega arith)
drop-splice_behind (suc k) zero [] m h = refl
drop-splice_behind (suc k) zero (b ∷ bs) [] h = refl
drop-splice_behind (suc k) zero (b ∷ bs) (x ∷ m) h = drop-splice_behind k zero bs m (omega arith)
drop-splice_behind (suc k) (suc p) bs [] h = refl
drop-splice_behind (suc k) (suc p) bs (x ∷ m) h = drop-splice_behind k p bs m (omega arith)

pub take-drop-splice_elsewhere :
    (from n p : ℕ) (bs m : List ℕ)
    → (from + n ≤ p) ⊎ (p + length bs ≤ from)
    → take n (drop from (splice p bs m)) ≡ take n (drop from m)
take-drop-splice_elsewhere from n p bs m (inl h) =
    subst (λ q. take n (drop from (splice q bs m)) ≡ take n (drop from m))
      (let e : from + (p - from) ≡ p = omega arith in e)
      (rw (drop-splice from (p - from) bs m)
        (take-splice_before n (p - from) bs (drop from m) (omega arith)))
take-drop-splice_elsewhere from n p bs m (inr h) = ap (take n) (drop-splice_behind from p bs m h)

-- A copy to the start of a memory.
pub splice-start : (bs m : List ℕ) → length bs ≤ length m → splice 0 bs m ≡ bs ++ drop (length bs) m
unfolding splice
splice-start [] m h = refl
splice-start (b ∷ bs) [] h = absurd (omega arith)
splice-start (b ∷ bs) (x ∷ m) h = ap (λ l. b ∷ l) (splice-start bs m (omega arith))

-- A copy right behind another.
pub splice-behind : (a bs m : List ℕ) → splice (length a) bs (a ++ m) ≡ a ++ splice 0 bs m
unfolding splice
splice-behind [] bs m = refl
splice-behind (x ∷ a) bs m = ap (λ l. x ∷ l) (splice-behind a bs m)

unfoldable pub concat : List (List ℕ) → List ℕ
concat [] = []
concat (p ∷ ps) = p ++ concat ps

pub concat-append : (ps qs : List (List ℕ)) → concat (ps ++ qs) ≡ concat ps ++ concat qs
unfolding concat
concat-append [] qs = refl
concat-append (p ∷ ps) qs =
    ap (λ l. p ++ l) (concat-append ps qs) ∙ sym (append_assoc p (concat ps) (concat qs))
