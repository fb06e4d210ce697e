-- ===== src/Core/Buffer/Valid.antt =====
-- The bounds of a buffer, and every checked operation at every argument.
use open_weaver.Base.{
  ℕ, ◌+◌, ◌-◌, ◌≤◌, ◌≡◌, refl, ◌∙◌, ◌↔◌, Bool, true, false, List, [], ◌∷◌, arith, length,
}
use open_weaver.Bytes.{le, length-splice}
use open_weaver.Core.Buffer.{
  Buffer, write_unsafe, cover, size, uncover, truncate, expand, write, write_uint_le, write_uint,
  write_uint_be, write_uint_unsafe, bswap,
}

-- The window lies in the memory that the buffer owns.
pub record IsValid (b : Buffer) : Type 0 where
  pub ordered : b.start_index ≤ b.end_index
  pub within : b.end_index ≤ b.capacity
  pub allocated : length b.memory ≡ b.capacity

pub data Op : Type 0 where
  cover_op uncover_op truncate_op expand_op : (num : ℕ) → Op
  write_op : (pos : ℕ) (bytes : List ℕ) → Op
  write_le_op write_be_op : (n pos num : ℕ) → Op

unfoldable pub apply : Op → Buffer → Buffer × Bool
apply (cover_op num) b = cover b num
apply (uncover_op num) b = uncover b num
apply (truncate_op num) b = truncate b num
apply (expand_op num) b = expand b num
apply (write_op pos bytes) b = write b pos bytes
apply (write_le_op n pos num) b = write_uint_le n b pos num
apply (write_be_op n pos num) b = write_uint_be n b pos num

unfoldable pub run : List Op → Buffer → Buffer
run [] b = b
run (op ∷ ops) b = run ops (apply op b).0

-- What an operation asks for lies in the buffer.
abbrev pub Fits : Op → Buffer → Type 0
Fits (cover_op num) b = num ≤ size b
Fits (uncover_op num) b = num ≤ b.start_index
Fits (truncate_op num) b = num ≤ size b
Fits (expand_op num) b = num ≤ b.capacity - b.end_index
Fits (write_op pos bytes) b = pos + length bytes ≤ size b
Fits (write_le_op n pos num) b = pos + n ≤ size b
Fits (write_be_op n pos num) b = pos + n ≤ size b

-- A checked operation succeeds exactly when what it asks for lies in the buffer, and one that fails
-- leaves the buffer as it was.
pub apply-Fits :
    (op : Op) (b : Buffer)
    → (((apply op b).1 ≡ true) ↔ Fits op b) × ((apply op b).1 ≡ false → (apply op b).0 ≡ b)
unfolding apply cover uncover truncate expand write write_uint write_uint_be
apply-Fits (cover_op num) b = ground arith
apply-Fits (uncover_op num) b = ground arith
apply-Fits (truncate_op num) b = ground arith
apply-Fits (expand_op num) b = ground arith
apply-Fits (write_op pos bytes) b = ground arith
apply-Fits (write_le_op n pos num) b = ground arith
apply-Fits (write_be_op n pos num) b = ground arith

abbrev Keeps : Op → Buffer → Type 0
Keeps op b = IsValid (apply op b).0 × ((apply op b).0.capacity ≡ b.capacity)

pub write_unsafe-IsValid :
    (b : Buffer) (pos : ℕ) (bytes : List ℕ) → IsValid b → IsValid (write_unsafe b pos bytes)
unfolding write_unsafe
write_unsafe-IsValid b pos bytes v = record {
  ordered = v.ordered;
  within = v.within;
  allocated = length-splice (b.start_index + pos) bytes b.memory ∙ v.allocated;
}

pub apply-IsValid : (op : Op) (b : Buffer) → IsValid b → Keeps op b
unfolding apply cover uncover truncate expand write write_uint write_uint_be write_uint_unsafe
apply-IsValid (cover_op num) b v = ground arith
apply-IsValid (uncover_op num) b v = ground arith
apply-IsValid (truncate_op num) b v = ground arith
apply-IsValid (expand_op num) b v = ground arith
apply-IsValid (write_op pos bytes) b v = ground (arith, write_unsafe-IsValid b pos bytes v)
apply-IsValid (write_le_op n pos num) b v = ground (arith, write_unsafe-IsValid b pos (le n num) v)
apply-IsValid (write_be_op n pos num) b v =
    ground (arith, write_unsafe-IsValid b pos (le n (bswap n num)) v)

-- Whatever checked operations run on a valid buffer, with whatever arguments, its window stays
-- within its memory, and the memory keeps its size.
pub run-IsValid :
    (ops : List Op) (b : Buffer)
    → IsValid b
    → IsValid (run ops b) × ((run ops b).capacity ≡ b.capacity)
unfolding run
run-IsValid [] b v = (v, refl)
run-IsValid (op ∷ ops) b v =
    let k = apply-IsValid op b v in let r = run-IsValid ops (apply op b).0 k.0 in (r.0, r.1 ∙ k.1)
