-- ===== src/Delta/Tests.antt =====
-- Runs of lib/delta.c on concrete streams, and its theorems at them.
use gameoftrees.Base.{◌≡◌, refl, [], ◌∷◌, Bytes, none, some, arith}
use gameoftrees.Error.{ok, trap, bad_shift}
use gameoftrees.Delta.{
  start, deref, next_delta_byte, add_size_bits, parse_size_loop, parse_size, opcode_field,
  parse_opcode, parse_delta_sizes, get_sizes, left, memcpy_out, copied, copy_base, copy_inline,
  dispatch, apply_round, after_round, apply_loop, check_size, enter_loop, apply_sized, apply_in_mem,
}
use gameoftrees.Delta.Instr.{CopyArgs}
use gameoftrees.Delta.Size.{parse_size_overflow}
use gameoftrees.Delta.Rounds.{copy, inline}
use gameoftrees.Delta.RoundTrip.{Stream, IsWellFormed, stream_bytes, apply_in_mem-stream}
use gameoftrees.Delta.Safety.{EndsSafely, apply_in_mem-safe}

abbrev base : Bytes
base = b'a' ∷ b'b' ∷ b'c' ∷ b'd' ∷ b'e' ∷ b'f' ∷ b'g' ∷ b'h' ∷ []

-- Base size 8, result size 5; copy 3 bytes from offset 2; the data "xy".
abbrev delta_bytes : Bytes
delta_bytes = 8 ∷ 5 ∷ 0x91 ∷ 2 ∷ 3 ∷ 2 ∷ b'x' ∷ b'y' ∷ []

abbrev copy_args : CopyArgs
copy_args = record {
  off1 = some 2;
  off2 = none;
  off3 = none;
  off4 = none;
  len1 = some 3;
  len2 = none;
  len3 = none;
}

abbrev stream : Stream
stream = record {
  base_size = record { groups = []; last = 8 };
  result_size = record { groups = []; last = 5 };
  instrs = copy copy_args ∷ inline (b'x' ∷ b'y' ∷ []) ∷ [];
}

stream_is : stream_bytes stream ≡ delta_bytes
stream_is = refl

applied : apply_in_mem base delta_bytes 64 ≡ left none (b'c' ∷ b'd' ∷ b'e' ∷ b'x' ∷ b'y' ∷ [])
unfolding apply_in_mem apply_sized enter_loop check_size parse_delta_sizes parse_size
    parse_size_loop deref add_size_bits next_delta_byte apply_loop after_round apply_round dispatch
    copy_base copy_inline copied memcpy_out parse_opcode opcode_field
applied = refl

sizes : get_sizes (0x88 ∷ 1 ∷ 5 ∷ 0 ∷ []) ≡ ok (136, 5)
unfolding get_sizes parse_delta_sizes parse_size parse_size_loop deref add_size_bits next_delta_byte
sizes = refl

well_formed : IsWellFormed base stream
well_formed = record {
  base_readable = record {
    groups_below = tt;
    last_below = omega arith;
    short = omega arith;
    small = omega arith;
  };
  result_readable = record {
    groups_below = tt;
    last_below = omega arith;
    short = omega arith;
    small = omega arith;
  };
  instrs_valid = omega arith;
  instrs_nonempty = λ e. cc;
}

apply_in_mem-stream_example :
    apply_in_mem base (stream_bytes stream) 64 ≡ left none (b'c' ∷ b'd' ∷ b'e' ∷ b'x' ∷ b'y' ∷ [])
apply_in_mem-stream_example =
    apply_in_mem-stream base 64 stream well_formed (omega arith) (omega arith) (omega arith)
      (omega arith)

apply_in_mem-safe_example : EndsSafely 64 (apply_in_mem base delta_bytes 64)
apply_in_mem-safe_example = apply_in_mem-safe base delta_bytes 64 (omega arith) (omega arith)

-- 2 ^ 31 in five bytes.
parse_size_overflow_example :
    parse_size (start (0x80 ∷ 0x80 ∷ 0x80 ∷ 0x80 ∷ 8 ∷ [])) ≡ trap bad_shift
parse_size_overflow_example =
    parse_size_overflow (0 ∷ 0 ∷ 0 ∷ 0 ∷ []) 8 [] (omega arith) (omega arith) (omega arith)
      (omega arith)
