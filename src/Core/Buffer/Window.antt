-- ===== src/Core/Buffer/Window.antt =====
-- The bytes that a buffer shows, and what each operation does to them.
use open_weaver.Base.{
  ℕ, ◌+◌, ◌-◌, ◌≤◌, ◌≡◌, refl, ap, subst, ◌∙◌, ◌⊎◌, inl, inr, true, none, some, List, arith, leb,
  if◌then◌else◌, Bool-cases, length, take, drop, length-take, length-drop, drop-take, drop-drop,
  take-take,
}
use open_weaver.Bytes.{le, splice, drop-splice, take-splice, take-drop-splice_elsewhere}
use open_weaver.Core.Buffer.{
  Buffer, contents, write_unsafe, size, read_unsafe, truncate_unsafe, cover_unsafe, expand_unsafe,
  uncover_unsafe, read, cover, write, uncover, truncate, expand, write_uint, write_uint_be,
  write_uint_unsafe, bswap, is_out,
}
use open_weaver.Core.Buffer.Valid.{
  IsValid, Op, apply, cover_op, uncover_op, truncate_op, expand_op, write_op, write_le_op,
  write_be_op,
}

pub length-contents : (b : Buffer) → IsValid b → length (contents b) ≡ size b
unfolding contents
length-contents b v = omega (
  arith,
  v.ordered,
  v.within,
  v.allocated,
  length-take (size b) (drop b.start_index b.memory),
  length-drop b.start_index b.memory,
)

drop-take_sub : (m k : ℕ) (xs : List ℕ) → m ≤ k → drop m (take k xs) ≡ take (k - m) (drop m xs)
drop-take_sub m k xs h =
    subst (λ j. drop m (take j xs) ≡ take (k - m) (drop m xs)) (omega arith)
      (drop-take m (k - m) xs)

pub contents-cover :
    (b : Buffer) (num : ℕ) → num ≤ size b → contents (cover_unsafe b num) ≡ drop num (contents b)
unfolding contents
contents-cover b num h =
    let e : b.end_index - (b.start_index + num) ≡ size b - num = omega arith in
    rw
      (
        drop-take_sub num (size b) (drop b.start_index b.memory) h,
        drop-drop num b.start_index b.memory,
        e,
      )
      refl

pub contents-truncate :
    (b : Buffer) (num : ℕ) → contents (truncate_unsafe b num) ≡ take (size b - num) (contents b)
unfolding contents
contents-truncate b num =
    let e : b.end_index - num - b.start_index ≡ size b - num = omega arith in
    rw (take-take (size b - num) (size b) (drop b.start_index b.memory) (omega arith), e) refl

pub contents-write :
    (b : Buffer) (pos : ℕ) (bytes : List ℕ)
    → contents (write_unsafe b pos bytes) ≡ splice pos bytes (contents b)
unfolding contents write_unsafe
contents-write b pos bytes =
    ap (take (size b)) (drop-splice b.start_index pos bytes b.memory)
    ∙ take-splice (size b) pos bytes (drop b.start_index b.memory)

pub read_unsafe-contents :
    (b : Buffer) (pos n : ℕ)
    → pos + n ≤ size b
    → read_unsafe b pos n ≡ take n (drop pos (contents b))
unfolding contents read_unsafe
read_unsafe-contents b pos n h =
    rw
      (
        drop-take_sub pos (size b) (drop b.start_index b.memory) (omega arith),
        drop-drop pos b.start_index b.memory,
        take-take n (size b - pos) (drop (b.start_index + pos) b.memory) (omega arith),
      )
      refl

-- A buffer as a list of bytes: what an operation that succeeds makes of the list.
abbrev pub Follows : Op → List ℕ → List ℕ → Type 0
Follows (cover_op num) bytes after = after ≡ drop num bytes
Follows (uncover_op num) bytes after = bytes ≡ drop num after
Follows (truncate_op num) bytes after = after ≡ take (length bytes - num) bytes
Follows (expand_op num) bytes after = bytes ≡ take (length after - num) after
Follows (write_op pos written) bytes after = after ≡ splice pos written bytes
Follows (write_le_op n pos num) bytes after = after ≡ splice pos (le n num) bytes
Follows (write_be_op n pos num) bytes after = after ≡ splice pos (le n (bswap n num)) bytes

uncover-Follows :
    (b : Buffer) (num : ℕ)
    → IsValid b
    → num ≤ b.start_index
    → contents b ≡ drop num (contents (uncover_unsafe b num))
unfolding contents
uncover-Follows b num v h =
    let e : b.start_index - num + num ≡ b.start_index = omega arith in
    subst
      (λ s. contents (record b { start_index = s }) ≡ drop num (contents (uncover_unsafe b num))) e
      (contents-cover (uncover_unsafe b num) num (omega (arith, v.ordered)))

pub expand-Follows :
    (b : Buffer) (num : ℕ)
    → IsValid b
    → num ≤ b.capacity - b.end_index
    → contents b
      ≡ take (length (contents (expand_unsafe b num)) - num) (contents (expand_unsafe b num))
unfolding contents
expand-Follows b num v h =
    let b' : Buffer = expand_unsafe b num in
    let valid : IsValid b' = omega (arith, v.ordered, v.within, v.allocated) in
    let e : b.end_index + num - num ≡ b.end_index = omega arith in
    rw (length-contents b' valid) (
      subst (λ s. contents (record b { end_index = s }) ≡ take (size b' - num) (contents b')) e
        (contents-truncate b' num))

-- A checked operation that succeeds on a valid buffer does to the bytes in the window what its
-- description on a list of bytes says: cover drops a prefix, truncate drops a suffix, uncover and
-- expand show bytes before and behind again, and a write replaces just its range.
pub apply-Follows :
    (op : Op) (b : Buffer)
    → IsValid b
    → (apply op b).1 ≡ true
    → Follows op (contents b) (contents (apply op b).0)
unfolding apply cover uncover truncate expand write write_uint write_uint_be write_uint_unsafe
apply-Follows (cover_op num) b v h = ground (arith, contents-cover b num)
apply-Follows (uncover_op num) b v h = ground (arith, uncover-Follows b num v)
apply-Follows (truncate_op num) b v h = ground (arith, contents-truncate b num, length-contents b v)
apply-Follows (expand_op num) b v h = ground (arith, expand-Follows b num v)
apply-Follows (write_op pos bytes) b v h = ground (arith, contents-write b pos bytes)
apply-Follows (write_le_op n pos num) b v h = ground (arith, contents-write b pos (le n num))
apply-Follows (write_be_op n pos num) b v h =
    ground (arith, contents-write b pos (le n (bswap n num)))

pub read-contents :
    (b : Buffer) (pos n : ℕ)
    → read b pos n
      ≡ (if leb (pos + n) (size b) then some (take n (drop pos (contents b))) else none)
unfolding read
read-contents b pos n = ground (arith, read_unsafe-contents b pos n)

-- A checked read after a write, whether the write succeeds or not, returns the bytes of the window
-- that stood in the range before when the two ranges are apart, and nothing when the range reaches
-- outside the window.
pub read-write_elsewhere :
    (b : Buffer) (pos : ℕ) (bytes : List ℕ) (from n : ℕ)
    → (from + n ≤ pos) ⊎ (pos + length bytes ≤ from)
    → read (write b pos bytes).0 from n
      ≡ (if leb (from + n) (size b) then some (take n (drop from (contents b))) else none)
unfolding write
read-write_elsewhere b pos bytes from n apart = elim (Bool-cases (is_out pos (length bytes) b)) [
  | inl a ↦ rw a (read-contents b from n)
  | inr a ↦ rw a (
      read-contents (write_unsafe b pos bytes) from n
      ∙ ap (λ (l : List ℕ). if leb (from + n) (size b) then some l else none)
          (ap (λ (c : List ℕ). take n (drop from c)) (contents-write b pos bytes)
            ∙ take-drop-splice_elsewhere from n pos bytes (contents b) apart))
]
