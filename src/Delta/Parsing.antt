-- ===== src/Delta/Parsing.antt =====
-- The parsers of lib/delta.c on any stream: they read inside it, and stop on a byte that is there.
use gameoftrees.Base.{
  ℕ, zero, suc, ◌+◌, ◌^◌, ◌≤◌, ◌<◌, ◌≡◌, Bool-cases, arith, length, length-drop, inl, inr, ◌==◌,
  bit_and,
}
use gameoftrees.Error.{Result, ◌>>=◌, Safely, Safely-bind, Safely-mono}
use gameoftrees.Delta.{
  Cursor, read_byte, deref, advance, next_delta_byte, add_size_bits, parse_size_loop, parse_size,
  opcode_field, parse_opcode, parse_delta_sizes,
}

-- The counter counts the bytes from `p` to the end of the buffer.
pub record IsTied (c : Cursor) : Type 0 where
  pub counts : c.remain ≡ length c.at
  pub fits : c.remain < 2 ^ 64

-- A parser has moved on from `c` to `c'`, and can still read the byte at `p`.
pub record Moved (c c' : Cursor) : Type 0 where
  pub tied : IsTied c'
  pub readable : 0 < c'.remain
  pub shrinks : c'.remain ≤ c.remain

pub advance-IsTied : (n : ℕ) (c : Cursor) → IsTied c → n ≤ c.remain → IsTied (advance n c)
advance-IsTied n c t h = ground (arith, length-drop n c.at)

pub next_delta_byte-Moved :
    (c : Cursor) → IsTied c → 0 < c.remain → Safely (Moved c) (next_delta_byte c)
unfolding next_delta_byte
next_delta_byte-Moved c t h = ground (arith, length-drop 1 c.at)

Moved-self : (c : Cursor) → IsTied c → 0 < c.remain → Moved c c
Moved-self c t h = record { tied = t; readable = h; shrinks = omega arith }

Moved-trans : {c c' c'' : Cursor} → Moved c c' → Moved c' c'' → Moved c c''
Moved-trans m n = record { tied = n.tied; readable = n.readable; shrinks = omega arith }

abbrev pub Any {ℓ} : {A : Type ℓ} → A → Type 0
Any _ = Unit

pub read_byte-safe : (c : Cursor) → IsTied c → 0 < c.remain → Safely Any (read_byte c)
unfolding deref
read_byte-safe c t h = ground arith

add_size_bits-safe : (i size b : ℕ) → Safely Any (add_size_bits i size b)
unfolding add_size_bits
add_size_bits-safe i size b = ground arith

parse_size_loop-safe :
    (rounds i size : ℕ) (c : Cursor)
    → IsTied c
    → 0 < c.remain
    → Safely (λ r. Moved c r.1) (parse_size_loop rounds i size c)
unfolding parse_size_loop
parse_size_loop-safe zero i size c t h = tt
parse_size_loop-safe (suc rounds) i size c t h =
    Safely-bind Any _ (read_byte c) _ (read_byte-safe c t h) (λ b _.
      Safely-bind Any _ (add_size_bits i size b) _ (add_size_bits-safe i size b) (λ size' _.
        elim (Bool-cases (bit_and b 0x80 == 0)) [
          | inl last ↦ rw last (Moved-self c t h)
          | inr more ↦ rw more (
              Safely-bind (Moved c) _ (next_delta_byte c) _ (next_delta_byte-Moved c t h) (λ c' m.
                Safely-mono (λ r. Moved c' r.1) _ _ (λ r n. Moved-trans m n)
                  (parse_size_loop-safe rounds (i + 1) size' c' m.tied m.readable)))
        ]))

pub parse_size-safe :
    (c : Cursor) → IsTied c → 0 < c.remain → Safely (λ r. Moved c r.1) (parse_size c)
unfolding parse_size
parse_size-safe c t h = parse_size_loop-safe 10 0 0 c t h

-- In a block of steps that starts at `c0`, a step at `c` goes on from there.
opcode_field-safe :
    (c0 : Cursor) (opcode flag : ℕ) (set : ℕ → ℕ → ℕ) (acc : ℕ) (c : Cursor)
    → Moved c0 c
    → Safely (λ r. Moved c0 r.1) (opcode_field opcode flag set acc c)
unfolding opcode_field
opcode_field-safe c0 opcode flag set acc c m = elim (Bool-cases (bit_and opcode flag == 0)) [
  | inl clear ↦ rw clear m
  | inr set' ↦ rw set' (
      Safely-bind (Moved c) _ (next_delta_byte c) _ (next_delta_byte-Moved c m.tied m.readable)
        (λ c' n.
          Safely-bind Any _ (read_byte c') _ (read_byte-safe c' n.tied n.readable)
            (λ b _. Moved-trans m n)))
]

then_field :
    {B : Type 0} (Q : B → Type 0) (c0 : Cursor) (opcode flag : ℕ) (set : ℕ → ℕ → ℕ) (acc : ℕ)
    (c : Cursor) (k : ℕ × Cursor → Result B)
    → Moved c0 c
    → ((r : ℕ × Cursor) → Moved c0 r.1 → Safely Q (k r))
    → Safely Q (opcode_field opcode flag set acc c >>= k)
then_field Q c0 opcode flag set acc c k m h =
    Safely-bind (λ r. Moved c0 r.1) Q _ k (opcode_field-safe c0 opcode flag set acc c m) h

pub parse_opcode-safe :
    (c : Cursor) → IsTied c → 0 < c.remain → Safely (λ r. Moved c r.2) (parse_opcode c)
unfolding parse_opcode
parse_opcode-safe c t h = Safely-bind Any _ (read_byte c) _ (read_byte-safe c t h) (λ b _.
    then_field _ c b 1 _ _ _ _ (Moved-self c t h) (λ _ m1. then_field _ c b 2 _ _ _ _ m1 (λ _ m2.
      then_field _ c b 4 _ _ _ _ m2 (λ _ m3. then_field _ c b 8 _ _ _ _ m3 (λ _ m4.
        then_field _ c b 16 _ _ _ _ m4 (λ _ m5.
          then_field _ c b 32 _ _ _ _ m5 (λ _ m6. then_field _ c b 64 _ _ _ _ m6 (λ _ m7. m7))))))))

pub parse_delta_sizes-safe :
    (c : Cursor) → IsTied c → 0 < c.remain → Safely (λ r. Moved c r.2) (parse_delta_sizes c)
unfolding parse_delta_sizes
parse_delta_sizes-safe c t h =
    Safely-bind (λ r. Moved c r.1) _ (parse_size c) _ (parse_size-safe c t h)
      (λ (b, c1) m1.
        Safely-bind (Moved c1) _ (next_delta_byte c1) _
          (next_delta_byte-Moved c1 m1.tied m1.readable)
          (λ c2 m2.
            Safely-bind (λ r. Moved c2 r.1) _ (parse_size c2) _
              (parse_size-safe c2 m2.tied m2.readable)
              (λ (r, c3) m3. Moved-trans m1 (Moved-trans m2 m3))))
