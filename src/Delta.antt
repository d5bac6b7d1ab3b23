-- ===== src/Delta.antt =====
-- lib/delta.c: delta streams, which describe a file as copies out of a base file and literal data.
-- The parsers' `p` and `remain` are a Cursor: the bytes of the buffer from `p` on, and the counter.
-- A read or a copy outside the buffers, and a shift that C leaves undefined, is a `trap`.
mod Parsing
pub mod Safety
pub mod Size
pub mod Instr
pub mod Rounds
pub mod RoundTrip
mod Tests
use gameoftrees.Base.{
  ℕ, zero, suc, ◌+◌, ◌-◌, ◌*◌, ◌%◌, ◌^◌, Bool, true, false, ◌&&◌, ◌||◌, not, List, [], ◌∷◌, ◌++◌,
  Bytes, Option, none, some, bit_and, bit_or, ltb, leb, ◌==◌, if◌then◌else◌, length, take, drop,
}
use gameoftrees.Error.{
  Error, no_space, bad_delta, bad_delta_chain, Hazard, out_of_bounds, null_pointer, bad_shift,
  Result, ok, err, trap, ◌>>=◌,
}

-- `struct got_delta`: one element of a delta chain.
pub record Delta : Type 0 where
  pub offset : ℕ
  pub tslen : ℕ
  pub obj_type : ℕ
  pub size : ℕ
  pub data_offset : ℕ

-- `allocated` says whether malloc(3) succeeds.
pub delta_open : Bool → ℕ → ℕ → ℕ → ℕ → ℕ → Option Delta
delta_open allocated offset tslen obj_type size data_offset =
    if not allocated
    then none
    else some (record {
      offset = offset;
      tslen = tslen;
      obj_type = obj_type;
      size = size;
      data_offset = data_offset;
    })

abbrev pub obj_type_commit : ℕ
obj_type_commit = 1

abbrev pub obj_type_tree : ℕ
obj_type_tree = 2

abbrev pub obj_type_blob : ℕ
obj_type_blob = 3

abbrev pub obj_type_tag : ℕ
obj_type_tag = 4

pub delta_chain_get_base_type : List Delta → Result ℕ
delta_chain_get_base_type [] = trap null_pointer
delta_chain_get_base_type (d ∷ _) =
    let t = d.obj_type in
    if t == obj_type_commit || t == obj_type_tree || t == obj_type_blob || t == obj_type_tag
    then ok t
    else err bad_delta_chain

abbrev pub size_max : ℕ
size_max = 2 ^ 64 - 1

pub record Cursor : Type 0 where
  pub at : Bytes
  pub remain : ℕ

pub deref : Bytes → Result ℕ
deref [] = trap out_of_bounds
deref (b ∷ _) = ok b

-- `*p`
abbrev pub read_byte : Cursor → Result ℕ
read_byte c = deref c.at

-- `p += n` and `remain -= n`, for a `size_t` counter.
abbrev pub advance : ℕ → Cursor → Cursor
advance n c = record { at = drop n c.at; remain = (c.remain + (2 ^ 64 - n)) % 2 ^ 64 }

pub next_delta_byte : Cursor → Result Cursor
next_delta_byte c = if (advance 1 c).remain == 0 then err bad_delta else ok (advance 1 c)

-- `v << s` for an `int` v, which a `uint8_t` under a mask is promoted to.
pub shift_int : ℕ → ℕ → Result ℕ
shift_int v s = if ltb s 32 && ltb (v * 2 ^ s) (2 ^ 31) then ok (v * 2 ^ s) else trap bad_shift

-- The value of the size field after the byte `b` of round `i`.
add_size_bits : ℕ → ℕ → ℕ → Result ℕ
unfolding shift_int
add_size_bits i size b =
    if i == 0
    then ok (bit_and b 0x7f)
    else (shift_int (bit_and b 0x7f) (7 * i) >>= λ v. ok (bit_or size v))

-- The loop of parse_size with `10 - i` rounds left, so that none are left where `i > 9` holds.
-- It stops on the last byte of the field.
pub parse_size_loop : ℕ → ℕ → ℕ → Cursor → Result (ℕ × Cursor)
parse_size_loop zero i size c = err no_space
parse_size_loop (suc rounds) i size c = do
  b ← read_byte c
  size' ← add_size_bits i size b
  let more = next_delta_byte c >>= λ c'. parse_size_loop rounds (i + 1) size' c'
  if bit_and b 0x80 == 0 then ok (size', c) else more

pub parse_size : Cursor → Result (ℕ × Cursor)
parse_size = parse_size_loop 10 0 0

-- One `if (opcode & flag) { … }` of parse_opcode: `set` stores the byte that follows.
pub opcode_field : ℕ → ℕ → (ℕ → ℕ → ℕ) → ℕ → Cursor → Result (ℕ × Cursor)
opcode_field opcode flag set acc c =
    if bit_and opcode flag == 0
    then ok (acc, c)
    else do c' ← next_delta_byte c; b ← read_byte c'; ok (set acc b, c')

abbrev pub or_byte : ℕ → ℕ → ℕ → ℕ
or_byte shift acc b = bit_or acc (b * 2 ^ shift)

abbrev pub copy_default_off : ℕ
copy_default_off = 0

abbrev pub copy_default_len : ℕ
copy_default_len = 0x10000

-- Returns the offset and the length, and stops on the last byte of the instruction.
pub parse_opcode : Cursor → Result (ℕ × ℕ × Cursor)
parse_opcode c = do
  opcode ← read_byte c
  (o1, c1) ← opcode_field opcode 0x01 (λ _ b. b) 0 c
  (o2, c2) ← opcode_field opcode 0x02 (or_byte 8) o1 c1
  (o3, c3) ← opcode_field opcode 0x04 (or_byte 16) o2 c2
  (o4, c4) ← opcode_field opcode 0x08 (or_byte 24) o3 c3
  (l1, c5) ← opcode_field opcode 0x10 (λ _ b. b) 0 c4
  (l2, c6) ← opcode_field opcode 0x20 (or_byte 8) l1 c5
  (l3, c7) ← opcode_field opcode 0x40 (or_byte 16) l2 c6
  ok (if o4 == 0 then copy_default_off else o4, if l3 == 0 then copy_default_len else l3, c7)

pub parse_delta_sizes : Cursor → Result (ℕ × ℕ × Cursor)
parse_delta_sizes c = do
  (base_size, c1) ← parse_size c
  c2 ← next_delta_byte c1
  (result_size, c3) ← parse_size c2
  ok (base_size, result_size, c3)

abbrev stream_length_min : ℕ
stream_length_min = 4

-- `p = delta_buf; remain = delta_len`
abbrev pub start : Bytes → Cursor
start delta_buf = record { at = delta_buf; remain = length delta_buf }

pub get_sizes : Bytes → Result (ℕ × ℕ)
get_sizes delta_buf =
    if ltb (length delta_buf) stream_length_min
    then err bad_delta
    else (parse_delta_sizes (start delta_buf) >>= λ (b, r, _). ok (b, r))

-- `memcpy(outbuf + *outsize, src, len)`, where `src` has these bytes and `outbuf` room for `room`.
-- `none` is an access out of bounds. `*outsize` is the length of what has been written.
pub memcpy_out : ℕ → Bytes → Bytes → ℕ → Option Bytes
memcpy_out room out src len =
    if ltb (length src) len || ltb room (length out + len) then none else some (out ++ take len src)

-- How one round of the loop of got_delta_apply_in_mem leaves it.
pub data Round : Type 0 where
  -- the round is over
  next : Cursor → Bytes → Round
  -- `break` with `err` set
  break_err : Error → Bytes → Round
  -- `return`
  return_err : Error → Bytes → Round
  trapped : Hazard → Round

-- `a + b` on `size_t`
abbrev add_size : ℕ → ℕ → ℕ
add_size a b = (a + b) % 2 ^ 64

pub copied : Cursor → Option Bytes → Round
copied c (some out) = next c out
copied c none = trapped out_of_bounds

-- The branch of a base copy, behind parse_opcode. The test `offset + len < 0` is of an unsigned
-- sum, and so is never true.
pub copy_base : Bytes → ℕ → Bytes → Result (ℕ × ℕ × Cursor) → Round
copy_base base max out (err e) = break_err e out
copy_base base max out (trap z) = trapped z
copy_base base max out (ok (offset, len, c)) =
    if ltb (size_max - offset) len
      || ltb (length base) (add_size offset len)
      || ltb max (add_size (length out) len)
    then return_err bad_delta out
    else copied (if c.remain == 0 then c else advance 1 c)
        (memcpy_out max out (drop offset base) len)

-- The branch of inline data, behind next_delta_byte.
pub copy_inline : ℕ → Bytes → ℕ → Result Cursor → Round
copy_inline max out len (err e) = break_err e out
copy_inline max out len (trap z) = trapped z
copy_inline max out len (ok c) =
    if ltb c.remain len || ltb (size_max - length out) len || ltb max (add_size (length out) len)
    then return_err bad_delta out
    else copied (advance len c) (memcpy_out max out c.at len)

-- The loop's body on the instruction byte.
pub dispatch : Bytes → ℕ → Cursor → Bytes → Result ℕ → Round
dispatch base max c out (err e) = break_err e out
dispatch base max c out (trap z) = trapped z
dispatch base max c out (ok b) =
    if not (bit_and b 0x80 == 0)
    then copy_base base max out (parse_opcode c)
    else if b == 0
    then break_err bad_delta out
    else copy_inline max out b (next_delta_byte c)

pub apply_round : Bytes → ℕ → Cursor → Bytes → Round
apply_round base max c out = dispatch base max c out (read_byte c)

-- How the loop ends: with `err` and what has been written, by `return`, or by a trap.
-- `stuck` is no outcome of the code: the fuel ran out.
pub data Ending : Type 0 where
  left : Option Error → Bytes → Ending
  returned : Error → Bytes → Ending
  crashed : Hazard → Ending
  stuck : Ending

pub after_round : (Cursor → Bytes → Ending) → Round → Ending
after_round loop (next c out) = loop c out
after_round loop (break_err e out) = left (some e) out
after_round loop (return_err e out) = returned e out
after_round loop (trapped z) = crashed z

pub apply_loop : ℕ → Bytes → ℕ → Cursor → Bytes → Ending
apply_loop zero base max c out = if c.remain == 0 then left none out else stuck
apply_loop (suc fuel) base max c out =
    let more =
      after_round (λ c' out'. apply_loop fuel base max c' out') (apply_round base max c out) in
    if c.remain == 0 then left none out else more

-- What got_delta_apply_in_mem leaves: its error, if any, and `outbuf` up to `*outsize`.
pub check_size : ℕ → Ending → Ending
check_size result_size (left e out) =
    if length out == result_size then left e out else left (some bad_delta) out
check_size result_size (returned e out) = returned e out
check_size result_size (crashed z) = crashed z
check_size result_size stuck = stuck

-- The loop's first test is of the `err` of this call of next_delta_byte.
pub enter_loop : Bytes → ℕ → Result Cursor → Ending
enter_loop base max (err e) = left (some e) []
enter_loop base max (trap z) = crashed z
enter_loop base max (ok c) = apply_loop c.remain base max c []

pub apply_sized : Bytes → ℕ → Result (ℕ × ℕ × Cursor) → Ending
apply_sized base max (err e) = returned e []
apply_sized base max (trap z) = crashed z
apply_sized base max (ok (base_size, result_size, c)) =
    check_size result_size (enter_loop base max (next_delta_byte c))

-- `max` is `maxoutsize`. A round takes a byte at least, so `remain` rounds are enough.
pub apply_in_mem : Bytes → Bytes → ℕ → Ending
apply_in_mem base delta_buf max =
    if ltb (length delta_buf) stream_length_min
    then returned bad_delta []
    else apply_sized base max (parse_delta_sizes (start delta_buf))
