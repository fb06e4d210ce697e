-- ===== src/Core/Buffer/Tests.antt =====
-- Concrete buffers.
use open_weaver.Base.{◌≤◌, ◌≡◌, refl, ◌↔◌, inr, true, false, none, some, List, [], ◌∷◌, arith}
use open_weaver.Bytes.{reverse, le, splice}
use open_weaver.Core.Buffer.{
  Buffer, read_uint_be, contents, read, write_uint_be, uncover, read_uint_le, write, write_uint_le,
  bswap, expand, cover,
}
use open_weaver.Core.Buffer.Valid.{
  IsValid, Op, run-IsValid, apply-Fits, cover_op, run, apply, write_be_op, expand_op, uncover_op,
}
use open_weaver.Core.Buffer.Window.{read-write_elsewhere, apply-Follows}
use open_weaver.Core.Buffer.Endian.{read_uint-write_uint_both}

-- Ten bytes with a window of seven.
abbrev buffer : Buffer
buffer = record {
  memory = 0 ∷ 1 ∷ 2 ∷ 3 ∷ 4 ∷ 5 ∷ 6 ∷ 7 ∷ 8 ∷ 9 ∷ [];
  capacity = 10;
  start_index = 2;
  end_index = 9;
}

buffer-IsValid : IsValid buffer
buffer-IsValid = record { ordered = omega arith; within = omega arith; allocated = refl }

abbrev ops : List Op
ops = cover_op 2 ∷ write_be_op 4 1 0x01020304 ∷ cover_op 100 ∷ expand_op 1 ∷ uncover_op 4 ∷ []

run_test : contents (run ops buffer) ≡ 0 ∷ 1 ∷ 2 ∷ 3 ∷ 4 ∷ 1 ∷ 2 ∷ 3 ∷ 4 ∷ 9 ∷ []
unfolding run apply contents uncover expand cover write_uint_be
run_test = refl

read_uint_test : read_uint_be 2 buffer 5 ≡ some 0x0708
unfolding read_uint_be
read_uint_test = refl

read_out_test : read_uint_be 4 buffer 4 ≡ none
unfolding read_uint_be
read_out_test = refl

run-IsValid_example : IsValid (run ops buffer) × ((run ops buffer).capacity ≡ 10)
run-IsValid_example = run-IsValid ops buffer buffer-IsValid

apply-Fits_example :
    (((apply (write_be_op 4 4 7) buffer).1 ≡ true) ↔ (8 ≤ 7))
    × ((apply (write_be_op 4 4 7) buffer).1 ≡ false → (apply (write_be_op 4 4 7) buffer).0 ≡ buffer)
apply-Fits_example = apply-Fits (write_be_op 4 4 7) buffer

apply-Follows_example :
    contents (apply (write_be_op 2 1 0x0102) buffer).0 ≡ 2 ∷ 1 ∷ 2 ∷ 5 ∷ 6 ∷ 7 ∷ 8 ∷ []
unfolding apply write_uint_be contents le bswap splice
apply-Follows_example = apply-Follows (write_be_op 2 1 0x0102) buffer buffer-IsValid refl

read-write_elsewhere_example :
    read (write buffer 1 (20 ∷ 21 ∷ [])).0 3 4 ≡ some (5 ∷ 6 ∷ 7 ∷ 8 ∷ [])
unfolding contents
read-write_elsewhere_example = read-write_elsewhere buffer 1 (20 ∷ 21 ∷ []) 3 4 (inr (omega arith))

read_uint-write_uint_both_example :
    (read_uint_le 2 (write_uint_le 2 buffer 3 0x0102).0 3 ≡ some 0x0102)
    × (read_uint_be 2 (write_uint_be 2 buffer 3 0x0102).0 3 ≡ some 0x0102)
    × (read (write_uint_be 2 buffer 3 0x0102).0 3 2 ≡ some (1 ∷ 2 ∷ []))
unfolding le reverse
read_uint-write_uint_both_example =
    read_uint-write_uint_both 2 buffer 3 0x0102 buffer-IsValid (omega arith) (omega arith)
