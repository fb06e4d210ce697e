-- ===== src/Core/Buffer.antt =====
-- core/include/marlin/core/BaseBuffer.ipp and core/src/Buffer.cpp: a window of bytes on a memory
-- that the buffer owns. `size_t` differences are written where the code's own tests keep them from
-- wrapping. A host is little endian, so the big-endian operations swap the bytes.
pub mod Valid
pub mod Window
pub mod Endian
mod Tests
use open_weaver.Base.{
  ℕ, zero, suc, ◌+◌, ◌-◌, ◌*◌, ◌/◌, ◌%◌, ◌^◌, ◌≤◌, ◌<◌, min, max, ◌≡◌, refl, sym, ap, subst, ◌∙◌,
  ◌≢◌, ◌↔◌, ◌⊎◌, inl, inr, Bool, true, false, not, ◌&&◌, ◌||◌, Option, none, some, List, [], ◌∷◌,
  ◌++◌, map, arith, ltb, leb, ◌==◌, if◌then◌else◌, ltb→lt, lt→ltb, leb→le, ==_iff, ==_refl,
  Bool-cases, Option-cases, add64, sub64, length, take, drop, length-append, length-take,
  length-drop, take-append-drop, All, take_all, take-append_length, drop-append_length,
}
use open_weaver.Bytes.{le, of_le, reverse, splice}

pub record Buffer : Type 0 where
  -- The bytes from `buf` on.
  pub memory : List ℕ
  pub capacity : ℕ
  pub start_index : ℕ
  pub end_index : ℕ

abbrev pub size : Buffer → ℕ
size b = b.end_index - b.start_index

-- The bytes from `data()` on, `size()` many.
unfoldable pub contents : Buffer → List ℕ
contents b = take (size b) (drop b.start_index b.memory)

unfoldable pub create : (buf : List ℕ) (size : ℕ) → Buffer
create buf size = record { memory = buf; capacity = size; start_index = 0; end_index = size }

-- The buffer that a move leaves behind.
abbrev pub moved_from : Buffer
moved_from = record { memory = []; capacity = 0; start_index = 0; end_index = 0 }

-- The move constructor: the new buffer and the old one.
unfoldable pub move : Buffer → Buffer × Buffer
move b = (b, moved_from)

-- `release`: the memory, and the buffer without it.
unfoldable pub release : Buffer → List ℕ × Buffer
release b = (b.memory, moved_from)

abbrev pub cover_unsafe : Buffer → ℕ → Buffer
cover_unsafe b num = record b { start_index = b.start_index + num }

unfoldable pub cover : Buffer → ℕ → Buffer × Bool
cover b num = if ltb (size b) num then (b, false) else (cover_unsafe b num, true)

abbrev pub uncover_unsafe : Buffer → ℕ → Buffer
uncover_unsafe b num = record b { start_index = b.start_index - num }

unfoldable pub uncover : Buffer → ℕ → Buffer × Bool
uncover b num = if ltb b.start_index num then (b, false) else (uncover_unsafe b num, true)

abbrev pub truncate_unsafe : Buffer → ℕ → Buffer
truncate_unsafe b num = record b { end_index = b.end_index - num }

unfoldable pub truncate : Buffer → ℕ → Buffer × Bool
truncate b num = if ltb (size b) num then (b, false) else (truncate_unsafe b num, true)

abbrev pub expand_unsafe : Buffer → ℕ → Buffer
expand_unsafe b num = record b { end_index = b.end_index + num }

unfoldable pub expand : Buffer → ℕ → Buffer × Bool
expand b num =
    if ltb (b.capacity - b.end_index) num then (b, false) else (expand_unsafe b num, true)

-- The test of every checked read and write.
abbrev pub is_out : (pos size : ℕ) → Buffer → Bool
is_out pos n b = ltb (size b) n || ltb (size b - n) pos

unfoldable pub read_unsafe : Buffer → (pos size : ℕ) → List ℕ
read_unsafe b pos n = take n (drop (b.start_index + pos) b.memory)

unfoldable pub read : Buffer → (pos size : ℕ) → Option (List ℕ)
unfolding read_unsafe
read b pos n = if is_out pos n b then none else some (read_unsafe b pos n)

-- `read_uint<8n>_unsafe`
unfoldable pub read_uint_unsafe : (n : ℕ) → Buffer → (pos : ℕ) → ℕ
unfolding read_unsafe of_le
read_uint_unsafe n b pos = of_le (read_unsafe b pos n)

-- `read_uint<8n>`
unfoldable pub read_uint : (n : ℕ) → Buffer → (pos : ℕ) → Option ℕ
unfolding read_uint_unsafe
read_uint n b pos = if is_out pos n b then none else some (read_uint_unsafe n b pos)

unfoldable pub write_unsafe : Buffer → (pos : ℕ) → List ℕ → Buffer
unfolding splice
write_unsafe b pos bytes = record b { memory = splice (b.start_index + pos) bytes b.memory }

unfoldable pub write : Buffer → (pos : ℕ) → List ℕ → Buffer × Bool
unfolding write_unsafe
write b pos bytes =
    if is_out pos (length bytes) b then (b, false) else (write_unsafe b pos bytes, true)

-- `write_uint<8n>_unsafe`
unfoldable pub write_uint_unsafe : (n : ℕ) → Buffer → (pos num : ℕ) → Buffer
unfolding write_unsafe le
write_uint_unsafe n b pos num = write_unsafe b pos (le n num)

-- `write_uint<8n>`
unfoldable pub write_uint : (n : ℕ) → Buffer → (pos num : ℕ) → Buffer × Bool
unfolding write_uint_unsafe
write_uint n b pos num =
    if is_out pos n b then (b, false) else (write_uint_unsafe n b pos num, true)

-- `__builtin_bswap<8n>`
unfoldable pub bswap : (n : ℕ) → ℕ → ℕ
unfolding reverse le of_le
bswap n x = of_le (reverse (le n x))

-- `read_uint<8n>_be`
unfoldable pub read_uint_be : (n : ℕ) → Buffer → (pos : ℕ) → Option ℕ
unfolding read_uint bswap
read_uint_be n b pos = elim (read_uint n b pos) [ none ↦ none | some x ↦ some (bswap n x) ]

-- `read_uint<8n>_be_unsafe`
unfoldable pub read_uint_be_unsafe : (n : ℕ) → Buffer → (pos : ℕ) → ℕ
unfolding read_uint_unsafe bswap
read_uint_be_unsafe n b pos = bswap n (read_uint_unsafe n b pos)

-- `read_uint<8n>_le`
abbrev pub read_uint_le : (n : ℕ) → Buffer → (pos : ℕ) → Option ℕ
read_uint_le n b pos = read_uint n b pos

-- `read_uint<8n>_le_unsafe`
abbrev pub read_uint_le_unsafe : (n : ℕ) → Buffer → (pos : ℕ) → ℕ
read_uint_le_unsafe n b pos = read_uint_unsafe n b pos

-- `write_uint<8n>_be`
unfoldable pub write_uint_be : (n : ℕ) → Buffer → (pos num : ℕ) → Buffer × Bool
unfolding write_uint bswap
write_uint_be n b pos num = write_uint n b pos (bswap n num)

-- `write_uint<8n>_be_unsafe`
unfoldable pub write_uint_be_unsafe : (n : ℕ) → Buffer → (pos num : ℕ) → Buffer
unfolding write_uint_unsafe bswap
write_uint_be_unsafe n b pos num = write_uint_unsafe n b pos (bswap n num)

-- `write_uint<8n>_le`
abbrev pub write_uint_le : (n : ℕ) → Buffer → (pos num : ℕ) → Buffer × Bool
write_uint_le n b pos num = write_uint n b pos num

-- `write_uint<8n>_le_unsafe`
abbrev pub write_uint_le_unsafe : (n : ℕ) → Buffer → (pos num : ℕ) → Buffer
write_uint_le_unsafe n b pos num = write_uint_unsafe n b pos num
