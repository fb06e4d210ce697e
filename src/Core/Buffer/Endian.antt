-- ===== src/Core/Buffer/Endian.antt =====
-- Numbers of 2, 4 and 8 bytes in a buffer, in both byte orders.
use open_weaver.Base.{
  ℕ, ◌+◌, ◌^◌, ◌≤◌, ◌<◌, ◌≡◌, refl, sym, ap, subst, ◌∙◌, false, Option, none, some, List, arith,
  length,
}
use open_weaver.Bytes.{
  le, of_le, reverse, length-le, le-AllIsByte, le-of_le, of_le-le, length-reverse, reverse-reverse,
  reverse-AllIsByte, take-drop-splice,
}
use open_weaver.Core.Buffer.{
  Buffer, bswap, read_uint_be, read_uint, read_unsafe, read_uint_unsafe, write_unsafe,
  write_uint_be, write_uint, size, write_uint_unsafe, read_uint_le, write_uint_le, read, is_out,
}
use open_weaver.Core.Buffer.Valid.{IsValid}

pub le-bswap : (n x : ℕ) → le n (bswap n x) ≡ reverse (le n x)
unfolding bswap
le-bswap n x =
    let e : length (reverse (le n x)) ≡ n = length-reverse (le n x) ∙ length-le n x in
    subst (λ k. le k (of_le (reverse (le n x))) ≡ reverse (le n x)) e
      (le-of_le (reverse (le n x)) (reverse-AllIsByte (le n x) (le-AllIsByte n x)))

bswap-eq : (n x : ℕ) → bswap n x ≡ of_le (reverse (le n x))
unfolding bswap
bswap-eq n x = refl

bswap-bswap : (n x : ℕ) → x < 256 ^ n → bswap n (bswap n x) ≡ x
bswap-bswap n x h =
    bswap-eq n (bswap n x)
    ∙ ap of_le (ap reverse (le-bswap n x) ∙ reverse-reverse (le n x))
    ∙ of_le-le n x h

-- What is written is read back.
read_unsafe-write_unsafe :
    (b : Buffer) (pos : ℕ) (bytes : List ℕ)
    → IsValid b
    → pos + length bytes ≤ size b
    → read_unsafe (write_unsafe b pos bytes) pos (length bytes) ≡ bytes
unfolding read_unsafe write_unsafe
read_unsafe-write_unsafe b pos bytes v h =
    take-drop-splice (b.start_index + pos) bytes b.memory
      (omega (arith, v.ordered, v.within, v.allocated))

is_out-fits : (pos n : ℕ) (b : Buffer) → pos + n ≤ size b → is_out pos n b ≡ false
is_out-fits pos n b h = ground arith

write_uint-fits :
    (n : ℕ) (b : Buffer) (pos x : ℕ)
    → pos + n ≤ size b
    → (write_uint n b pos x).0 ≡ write_unsafe b pos (le n x)
unfolding write_uint write_uint_unsafe
write_uint-fits n b pos x h = rw (is_out-fits pos n b h) refl

read_unsafe-write_uint :
    (n : ℕ) (b : Buffer) (pos x : ℕ)
    → IsValid b
    → pos + n ≤ size b
    → read_unsafe (write_unsafe b pos (le n x)) pos n ≡ le n x
read_unsafe-write_uint n b pos x v fits =
    let l : length (le n x) ≡ n = length-le n x in
    subst (λ k. read_unsafe (write_unsafe b pos (le n x)) pos k ≡ le n x) l
      (read_unsafe-write_unsafe b pos (le n x) v (omega arith))

read-write_uint :
    (n : ℕ) (b : Buffer) (pos x : ℕ)
    → IsValid b
    → pos + n ≤ size b
    → read (write_uint n b pos x).0 pos n ≡ some (le n x)
unfolding read write_unsafe
read-write_uint n b pos x v fits =
    ap (λ (c : Buffer). read c pos n) (write_uint-fits n b pos x fits)
    ∙ rw (is_out-fits pos n b fits) (ap some (read_unsafe-write_uint n b pos x v fits))

read_uint-write_uint :
    (n : ℕ) (b : Buffer) (pos x : ℕ)
    → IsValid b
    → pos + n ≤ size b
    → read_uint n (write_uint n b pos x).0 pos ≡ some (of_le (le n x))
unfolding read_uint read_uint_unsafe write_unsafe
read_uint-write_uint n b pos x v fits =
    ap (λ (c : Buffer). read_uint n c pos) (write_uint-fits n b pos x fits)
    ∙ rw (is_out-fits pos n b fits)
        (ap (λ (l : List ℕ). some (of_le l)) (read_unsafe-write_uint n b pos x v fits))

-- A number of `n` bytes that is written where it fits in a valid buffer is read back in the same
-- byte order, and the big-endian write puts its highest byte first.
pub read_uint-write_uint_both :
    (n : ℕ) (b : Buffer) (pos x : ℕ)
    → IsValid b
    → pos + n ≤ size b
    → x < 256 ^ n
    → (read_uint_le n (write_uint_le n b pos x).0 pos ≡ some x)
      × (read_uint_be n (write_uint_be n b pos x).0 pos ≡ some x)
      × (read (write_uint_be n b pos x).0 pos n ≡ some (reverse (le n x)))
unfolding read_uint_be write_uint_be
read_uint-write_uint_both n b pos x v fits h = (
  read_uint-write_uint n b pos x v fits ∙ ap some (of_le-le n x h),
  ap (λ (o : Option ℕ). elim o [ none ↦ none | some y ↦ some (bswap n y) ])
        (read_uint-write_uint n b pos (bswap n x) v fits)
      ∙ (ap some (ap (bswap n) (ap of_le (le-bswap n x) ∙ sym (bswap-eq n x)) ∙ bswap-bswap n x h)),
  read-write_uint n b pos (bswap n x) v fits ∙ ap some (le-bswap n x),
)
