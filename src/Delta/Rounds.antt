-- ===== src/Delta/Rounds.antt =====
-- The loop of got_delta_apply_in_mem on a list of copy and inline instructions.
use gameoftrees.Base.{
  ℕ, zero, suc, ◌+◌, ◌^◌, ◌≤◌, ◌<◌, ◌≡◌, ap, ◌∙◌, true, false, List, [], ◌∷◌, ◌++◌, Bytes, none,
  arith, length, take, drop, All, length-append, length-take, length-drop, take-append, drop-append,
  append-nil, append_assoc, bit_and, ◌==◌, ltb,
}
use gameoftrees.Base.Bits.{and_bit}
use gameoftrees.Error.{ok}
use gameoftrees.Delta.{
  start, deref, advance, next, copied, copy_base, copy_inline, dispatch, apply_round, left,
  after_round, apply_loop,
}
use gameoftrees.Delta.Size.{next_delta_byte-start}
use gameoftrees.Delta.Instr.{
  CopyArgs, HasBytes, copy_onto, copy_opcode, copy_offset, copy_length, copy_last,
  parse_opcode-copy_onto, copy_opcode_bounds, copy_rest_fits, copy_onto-longer,
}
use gameoftrees.Delta.Safety.{memcpy_out-some}

pub data Instr : Type 0 where
  copy : CopyArgs → Instr
  inline : Bytes → Instr

-- An instruction's bytes with `rest` behind them.
abbrev pub instr_onto : Instr → Bytes → Bytes
instr_onto (copy a) rest = copy_onto a rest
instr_onto (inline bs) rest = length bs ∷ (bs ++ rest)

abbrev pub instr_bytes : List Instr → Bytes
instr_bytes [] = []
instr_bytes (i ∷ is) = instr_onto i (instr_bytes is)

-- What an instruction, and a list of them, produces from `base`.
abbrev pub effect : Bytes → Instr → Bytes
effect base (copy a) = take (copy_length a) (drop (copy_offset a) base)
effect base (inline bs) = bs

abbrev pub expand : Bytes → List Instr → Bytes
expand base [] = []
expand base (i ∷ is) = effect base i ++ expand base is

-- Copies stay inside the base; inline data has 1 to 127 bytes.
abbrev pub IsValid : Bytes → Instr → Type 0
IsValid base (copy a) = HasBytes a × (copy_offset a + copy_length a ≤ length base)
IsValid base (inline bs) = (1 ≤ length bs) × (length bs < 128)

advance-start :
    (xs rest : Bytes)
    → length (xs ++ rest) < 2 ^ 64
    → advance (length xs) (start (xs ++ rest)) ≡ start rest
advance-start xs rest h = ground (arith, drop-append xs rest, length-append xs rest)

pub instr_onto-longer : (i : Instr) (rest : Bytes) → length rest < length (instr_onto i rest)
instr_onto-longer (copy a) rest = copy_onto-longer a rest
instr_onto-longer (inline bs) rest = omega (arith, length-append bs rest)

pub long_enough : (n : ℕ) → 4 ≤ n → ltb n 4 ≡ false
long_enough n h = ground arith

is_copy : (b : ℕ) → 128 ≤ b → b < 256 → (bit_and b 0x80 == 0) ≡ false
is_copy b h k = ground (arith, and_bit 7 b)

is_inline : (b : ℕ) → b < 128 → (bit_and b 0x80 == 0) ≡ true
is_inline b h = ground (arith, and_bit 7 b)

is_empty : (b : ℕ) → 1 ≤ b → (b == 0) ≡ false
is_empty b h = ground arith

module _ (base : Bytes) (max : ℕ) (apart : length base + max < 2 ^ 64) where
  copy_base-next :
      (offset len x : ℕ) (rest out : Bytes)
      → offset + len ≤ length base
      → length out + len ≤ max
      → suc (length rest) < 2 ^ 64
      → copy_base base max out (ok (offset, len, start (x ∷ rest)))
        ≡ next (start rest) (out ++ take len (drop offset base))
  unfolding copy_base copied
  copy_base-next offset len x rest out inside room fits = ground (
    arith,
    memcpy_out-some max out (drop offset base) len,
    length-drop offset base,
    advance-start (x ∷ []) rest,
  )

  copy_inline-next :
      (bs rest out : Bytes)
      → length out + length bs ≤ max
      → length (bs ++ rest) < 2 ^ 64
      → copy_inline max out (length bs) (ok (start (bs ++ rest))) ≡ next (start rest) (out ++ bs)
  unfolding copy_inline copied
  copy_inline-next bs rest out room fits = ground (
    arith,
    memcpy_out-some max out (bs ++ rest) (length bs),
    length-append bs rest,
    take-append bs rest,
    advance-start bs rest,
  )

  apply_round-instr :
      (i : Instr) (rest out : Bytes)
      → IsValid base i
      → length out + length (effect base i) ≤ max
      → length (instr_onto i rest) < 2 ^ 64
      → apply_round base max (start (instr_onto i rest)) out
        ≡ next (start rest) (out ++ effect base i)
  unfolding apply_round dispatch deref
  apply_round-instr (copy a) rest out v room len =
      rw
        (
          is_copy (copy_opcode a) (copy_opcode_bounds a).0 (copy_opcode_bounds a).1,
          parse_opcode-copy_onto a rest v.0 len,
        )
        (copy_base-next (copy_offset a) (copy_length a) (copy_last a) rest out v.1
          (omega (
            arith,
            length-take (copy_length a) (drop (copy_offset a) base),
            length-drop (copy_offset a) base,
            v.1,
          ))
          (copy_rest_fits a rest len))
  apply_round-instr (inline bs) rest out v room len =
      rw
        (
          is_inline (length bs) v.1,
          is_empty (length bs) v.0,
          next_delta_byte-start (length bs) (bs ++ rest) (omega (arith, length-append bs rest, v.0))
              len,
        )
        (copy_inline-next bs rest out room (omega arith))

  pub apply_loop-instr_bytes :
      (is : List Instr) (fuel : ℕ) (out : Bytes)
      → All (IsValid base) is
      → length out + length (expand base is) ≤ max
      → length (instr_bytes is) ≤ fuel
      → length (instr_bytes is) < 2 ^ 64
      → apply_loop fuel base max (start (instr_bytes is)) out ≡ left none (out ++ expand base is)
  unfolding apply_loop after_round
  apply_loop-instr_bytes [] zero out v room enough len = rw append-nil
  apply_loop-instr_bytes [] (suc fuel) out v room enough len = rw append-nil
  apply_loop-instr_bytes (i ∷ is) zero out v room enough len =
      absurd (omega (arith, instr_onto-longer i (instr_bytes is)))
  apply_loop-instr_bytes (i ∷ is) (suc fuel) out v room enough len =
      let longer = instr_onto-longer i (instr_bytes is) in
      rw
        (
          is_empty (length (instr_onto i (instr_bytes is))) (omega arith),
          apply_round-instr i (instr_bytes is) out v.0
              (omega (arith, length-append (effect base i) (expand base is))) len,
        )
        (apply_loop-instr_bytes is fuel (out ++ effect base i) v.1
            (omega (
              arith,
              length-append (effect base i) (expand base is),
              length-append out (effect base i),
            ))
            (omega arith) (omega arith)
          ∙ ap (left none) (append_assoc out (effect base i) (expand base is)))
