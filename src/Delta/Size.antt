-- ===== src/Delta/Size.antt =====
-- parse_size of lib/delta.c against the format of a size field that lib/got_lib_delta.h describes.
use gameoftrees.Base.{
  ℕ, zero, suc, ◌+◌, ◌*◌, ◌%◌, ◌^◌, ◌≤◌, ◌<◌, ◌≡◌, List, [], ◌∷◌, ◌++◌, Bytes, arith, length, All,
  bit_and, ◌==◌, inl, inr, ap, false, ◌∙◌, ◌⊎◌, ◌≢◌,
}
use gameoftrees.Base.Bits.{and_ones, and_bit, or_shifted}
use gameoftrees.Error.{ok, trap, bad_shift}
use gameoftrees.Delta.{
  start, deref, next_delta_byte, shift_int, add_size_bits, parse_size_loop, parse_size,
}
use native.Mathlib.Decide.{dec_lt}
use native.Mathlib.Numerals.{towards_suc}

-- "size0...sizeN form a 7+7+7+...+7 bit integer, where size0 is the least significant part. If the
-- MSB of a size byte is set, an additional size byte follows": the groups before the last, and it.
abbrev pub size_field : List ℕ → ℕ → Bytes
size_field [] last = last ∷ []
size_field (g ∷ gs) last = (g + 128) ∷ size_field gs last

abbrev pub size_value : List ℕ → ℕ → ℕ
size_value [] last = last
size_value (g ∷ gs) last = g + 128 * size_value gs last

abbrev pub IsGroup : ℕ → Type 0
IsGroup g = g < 128

pub next_delta_byte-start :
    (x : ℕ) (rest : Bytes)
    → 0 < length rest
    → length (x ∷ rest) < 2 ^ 64
    → next_delta_byte (start (x ∷ rest)) ≡ ok (start rest)
unfolding next_delta_byte
next_delta_byte-start x rest ne h = ground arith

size_field_nonempty :
    (gs : List ℕ) (last : ℕ) (rest : Bytes) → 0 < length (size_field gs last ++ rest)
size_field_nonempty [] last rest = omega arith
size_field_nonempty (g ∷ gs) last rest = omega arith

next_shift : (i : ℕ) → 2 ^ (7 * (i + 1)) ≡ 128 * 2 ^ (7 * i)
next_shift i =
    let e : 7 * (i + 1) ≡ 7 * i + 7 = omega arith in rw e (simp towards_suc (omega arith))

-- Round `i` adds its group at bit `7 * i`, as long as the shifted group fits an `int`.
add_size_bits_fits :
    (i size g b : ℕ)
    → b % 128 ≡ g
    → i ≤ 4
    → size < 2 ^ (7 * i)
    → g * 2 ^ (7 * i) < 2 ^ 31
    → add_size_bits i size b ≡ ok (size + g * 2 ^ (7 * i))
unfolding add_size_bits shift_int
add_size_bits_fits zero size g b e hi low fits = ground (arith, and_ones 7 b)
add_size_bits_fits (suc i) size g b e hi low fits =
    ground (arith, and_ones 7 b, or_shifted (7 * suc i) size (b % 128) low)

more_bit : (g : ℕ) → g < 128 → (bit_and (g + 128) 0x80 == 0) ≡ false
more_bit g h = ground (arith, and_bit 7 (g + 128))

group_below : (g p : ℕ) → g < 128 → g * p ≤ 127 * p
group_below g p h = grind arith

next_low :
    (i size g : ℕ) → size < 2 ^ (7 * i) → g < 128 → size + g * 2 ^ (7 * i) < 2 ^ (7 * (i + 1))
next_low i size g low h = omega (arith, next_shift i, group_below g (2 ^ (7 * i)) h)

value_shift : (v i : ℕ) → v * 2 ^ (7 * (i + 1)) ≡ 128 * v * 2 ^ (7 * i)
value_shift v i = omega (arith, ap (λ (t : ℕ). v * t) (next_shift i))

-- With at most five bytes and a value below 2 ^ 31 the loop reads the field.
parse_size_loop-size_field :
    (gs : List ℕ) (last : ℕ) (rest : Bytes) (rounds i size : ℕ)
    → All IsGroup gs
    → last < 128
    → i + length gs ≤ 4
    → length gs < rounds
    → size < 2 ^ (7 * i)
    → size + size_value gs last * 2 ^ (7 * i) < 2 ^ 31
    → length (size_field gs last ++ rest) < 2 ^ 64
    → parse_size_loop rounds i size (start (size_field gs last ++ rest))
      ≡ ok (size + size_value gs last * 2 ^ (7 * i), start (last ∷ rest))
unfolding parse_size_loop deref
parse_size_loop-size_field gs last rest zero i size hg hl hi hr low fits len = absurd (omega arith)
parse_size_loop-size_field [] last rest (suc r) i size hg hl hi hr low fits len =
    ground (arith, add_size_bits_fits i size last last, and_bit 7 last)
parse_size_loop-size_field (g ∷ gs) last rest (suc r) i size hg hl hi hr low fits len =
    let size' : ℕ = size + g * 2 ^ (7 * i) in
    rw
      (
        add_size_bits_fits i size g (g + 128) (ground arith) (omega arith) low (omega arith),
        more_bit g hg.0,
        next_delta_byte-start (g + 128) _ (size_field_nonempty gs last rest) len,
      )
      (parse_size_loop-size_field gs last rest r (i + 1) size' hg.1 hl (omega arith) (omega arith)
          (next_low i size g low hg.0) (omega (arith, value_shift (size_value gs last) i))
          (omega arith)
        ∙ ap (λ (v : ℕ). ok (v, start (last ∷ rest)))
            (omega (arith, value_shift (size_value gs last) i)))

-- parse_size reads every size field of at most five bytes whose value is below 2 ^ 31, and stops on
-- the field's last byte.
pub parse_size-size_field :
    (gs : List ℕ) (last : ℕ) (rest : Bytes)
    → All IsGroup gs
    → last < 128
    → length gs ≤ 4
    → size_value gs last < 2 ^ 31
    → length (size_field gs last ++ rest) < 2 ^ 64
    → parse_size (start (size_field gs last ++ rest)) ≡ ok (size_value gs last, start (last ∷ rest))
unfolding parse_size
parse_size-size_field gs last rest hg hl hi fits len =
    parse_size_loop-size_field gs last rest 10 0 0 hg hl (omega arith) (omega arith) (omega arith)
      (omega arith) len
    ∙ ap (λ (v : ℕ). ok (v, start (last ∷ rest))) (omega arith)

-- The shift of round `i` is undefined from the sixth byte on, and where the group leaves an `int`.
add_size_bits_traps :
    (i size b : ℕ)
    → (5 ≤ i) ⊎ ((i ≢ 0) × (2 ^ 31 ≤ b % 128 * 2 ^ (7 * i)))
    → add_size_bits i size b ≡ trap bad_shift
unfolding add_size_bits shift_int
add_size_bits_traps i size b (inl h) = ground arith
add_size_bits_traps i size b (inr (h, k)) = ground (arith, and_ones 7 b)

last_traps :
    (i last size : ℕ)
    → i ≤ 4
    → last < 128
    → size < 2 ^ (7 * i)
    → 2 ^ 31 ≤ size + last * 2 ^ (7 * i)
    → add_size_bits i size last ≡ trap bad_shift
last_traps zero last size hi hl low big = absurd (omega arith)
last_traps (suc zero) last size hi hl low big = absurd (omega arith)
last_traps (suc (suc zero)) last size hi hl low big = absurd (omega arith)
last_traps (suc (suc (suc zero))) last size hi hl low big = absurd (omega arith)
last_traps (suc (suc (suc (suc zero)))) last size hi hl low big =
    add_size_bits_traps 4 size last (inr ((λ e. omega arith), omega arith))
last_traps (suc (suc (suc (suc (suc i))))) last size hi hl low big = absurd (omega arith)

not_first : (i g : ℕ) → g < 128 → 2 ^ 31 ≤ g * 2 ^ (7 * i) → i ≢ 0
not_first zero g h k = λ e. omega arith
not_first (suc i) g h k = λ e. omega arith

parse_size_loop_overflow :
    (gs : List ℕ) (last : ℕ) (rest : Bytes) (rounds i size : ℕ)
    → All IsGroup gs
    → last < 128
    → i ≤ 5
    → 5 < rounds + i
    → size < 2 ^ (7 * i)
    → 2 ^ 31 ≤ size + size_value gs last * 2 ^ (7 * i)
    → length (size_field gs last ++ rest) < 2 ^ 64
    → parse_size_loop rounds i size (start (size_field gs last ++ rest)) ≡ trap bad_shift
unfolding parse_size_loop deref
parse_size_loop_overflow gs last rest zero i size hg hl hi hr low big len = absurd (omega arith)
parse_size_loop_overflow [] last rest (suc r) i size hg hl hi hr low big len = elim (dec_lt 4 i) [
  | yes five ↦ rw (add_size_bits_traps i size last (inl five))
  | no four ↦ rw (last_traps i last size (omega arith) hl low big)
]
parse_size_loop_overflow (g ∷ gs) last rest (suc r) i size hg hl hi hr low big len =
    elim (dec_lt 4 i) [
      | yes five ↦ rw (add_size_bits_traps i size (g + 128) (inl five))
      | no four ↦ elim (dec_lt (g * 2 ^ (7 * i)) (2 ^ 31)) [
        | yes small ↦
            rw
              (
                add_size_bits_fits i size g (g + 128) (ground arith) (omega arith) low small,
                more_bit g hg.0,
                next_delta_byte-start (g + 128) _ (size_field_nonempty gs last rest) len,
              )
              (parse_size_loop_overflow gs last rest r (i + 1) (size + g * 2 ^ (7 * i)) hg.1 hl
                (omega arith) (omega arith) (next_low i size g low hg.0)
                (omega (arith, value_shift (size_value gs last) i)) (omega arith))
        | no large ↦
            let big_group : 2 ^ 31 ≤ g * 2 ^ (7 * i) = omega arith in
            let masked : (g + 128) % 128 ≡ g = omega (arith, hg.0) in
            rw (
              add_size_bits_traps i size (g + 128)
                (inr (not_first i g hg.0 big_group, rw masked big_group)))
      ]
    ]

-- A size field whose value is 2 ^ 31 or more, in any number of bytes, makes parse_size shift an
-- `int` out of its range, which is undefined.
pub parse_size_overflow :
    (gs : List ℕ) (last : ℕ) (rest : Bytes)
    → All IsGroup gs
    → last < 128
    → 2 ^ 31 ≤ size_value gs last
    → length (size_field gs last ++ rest) < 2 ^ 64
    → parse_size (start (size_field gs last ++ rest)) ≡ trap bad_shift
unfolding parse_size
parse_size_overflow gs last rest hg hl big len =
    parse_size_loop_overflow gs last rest 10 0 0 hg hl (omega arith) (omega arith) (omega arith)
      (omega arith) len
