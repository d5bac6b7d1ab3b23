-- ===== src/Delta/RoundTrip.antt =====
-- got_delta_apply_in_mem on the streams that the format of lib/got_lib_delta.h describes.
use gameoftrees.Base.{
  ℕ, ◌+◌, ◌^◌, ◌≤◌, ◌<◌, ◌≡◌, ◌≢◌, refl, ◌∙◌, List, [], ◌∷◌, ◌++◌, Bytes, none, some, arith, length,
  All, ◌==◌, if◌then◌else◌,
}
use gameoftrees.Error.{ok, bad_delta}
use gameoftrees.Delta.{
  start, left, parse_size, check_size, enter_loop, apply_sized, parse_delta_sizes, apply_in_mem,
}
use gameoftrees.Delta.Size.{
  size_field, size_value, IsGroup, next_delta_byte-start, parse_size-size_field,
}
use gameoftrees.Delta.Rounds.{
  Instr, instr_bytes, expand, IsValid, instr_onto-longer, long_enough, apply_loop-instr_bytes,
}

-- A size field: its groups of seven bits, the last one apart.
pub record SizeField : Type 0 where
  pub groups : List ℕ
  pub last : ℕ

abbrev pub field_onto : SizeField → Bytes → Bytes
field_onto f rest = size_field f.groups f.last ++ rest

-- At most five bytes and a value below 2 ^ 31, which parse_size reads.
pub record IsReadable (f : SizeField) : Type 0 where
  pub groups_below : All IsGroup f.groups
  pub last_below : f.last < 128
  pub short : length f.groups ≤ 4
  pub small : size_value f.groups f.last < 2 ^ 31

-- "A delta stream begins with two size fields. The rest of the delta stream contains copy
-- instructions."
pub record Stream : Type 0 where
  pub base_size : SizeField
  pub result_size : SizeField
  pub instrs : List Instr

abbrev pub stream_bytes : Stream → Bytes
stream_bytes s = field_onto s.base_size (field_onto s.result_size (instr_bytes s.instrs))

pub record IsWellFormed (base : Bytes) (s : Stream) : Type 0 where
  pub base_readable : IsReadable s.base_size
  pub result_readable : IsReadable s.result_size
  pub instrs_valid : All (IsValid base) s.instrs
  pub instrs_nonempty : s.instrs ≢ []

parse_size-field :
    (f : SizeField) (rest : Bytes)
    → IsReadable f
    → length (field_onto f rest) < 2 ^ 64
    → parse_size (start (field_onto f rest))
      ≡ ok (size_value f.groups f.last, start (f.last ∷ rest))
parse_size-field f rest r len =
    parse_size-size_field f.groups f.last rest r.groups_below r.last_below r.short r.small len

size_field-longer :
    (gs : List ℕ) (last : ℕ) (rest : Bytes) → length rest < length (size_field gs last ++ rest)
size_field-longer [] last rest = omega arith
size_field-longer (g ∷ gs) last rest = omega (arith, size_field-longer gs last rest)

field_onto-longer : (f : SizeField) (rest : Bytes) → length rest < length (field_onto f rest)
field_onto-longer f rest = size_field-longer f.groups f.last rest

instr_bytes_nonempty : (is : List Instr) → is ≢ [] → 0 < length (instr_bytes is)
instr_bytes_nonempty [] h = absurd (h refl)
instr_bytes_nonempty (i ∷ is) h = omega (arith, instr_onto-longer i (instr_bytes is))

module _ (base : Bytes) (max : ℕ) (s : Stream) (w : IsWellFormed base s)
    (long : 4 ≤ length (stream_bytes s)) (len : length (stream_bytes s) < 2 ^ 64)
    (room : length (expand base s.instrs) ≤ max) (apart : length base + max < 2 ^ 64) where
  apply_in_mem_ends :
      apply_in_mem base (stream_bytes s) max
      ≡ check_size
          (size_value s.result_size.groups s.result_size.last)
          (left none (expand base s.instrs))
  unfolding apply_in_mem apply_sized enter_loop parse_delta_sizes
  apply_in_mem_ends =
      let body = instr_bytes s.instrs in
      let tail = field_onto s.result_size body in
      let b1 = field_onto-longer s.base_size tail in
      let b2 = field_onto-longer s.result_size body in
      rw (
        long_enough _ long,
        parse_size-field s.base_size tail w.base_readable len,
        next_delta_byte-start s.base_size.last tail (omega arith) (omega arith),
        parse_size-field s.result_size body w.result_readable (omega arith),
        next_delta_byte-start s.result_size.last body
            (instr_bytes_nonempty s.instrs w.instrs_nonempty) (omega arith),
        apply_loop-instr_bytes base max apart s.instrs (length body) [] w.instrs_valid (omega arith)
            (omega arith) (omega arith),
      )

  -- On a well-formed stream of 4 bytes or more, with room for the result, got_delta_apply_in_mem
  -- leaves exactly the bytes that the instructions produce from the base. It leaves no error if
  -- the stream's second size field says how many those are, and GOT_ERR_BAD_DELTA if it does not.
  pub apply_in_mem-stream :
      apply_in_mem base (stream_bytes s) max
      ≡ left
          (if length (expand base s.instrs) == size_value s.result_size.groups s.result_size.last
            then none
            else some bad_delta)
          (expand base s.instrs)
  unfolding check_size
  apply_in_mem-stream = apply_in_mem_ends ∙ ground arith
