-- ===== src/Delta/Safety.antt =====
-- Memory safety and termination of got_delta_apply_in_mem on any delta stream.
use gameoftrees.Base.{
  ℕ, zero, suc, ◌+◌, ◌^◌, ◌≤◌, ◌<◌, ◌≡◌, ◌≢◌, refl, Bool-cases, [], ◌++◌, Bytes, some, arith,
  length, take, drop, length-append, length-take, length-drop, inl, inr, ltb, ◌==◌, bit_and,
}
use gameoftrees.Error.{
  out_of_bounds, null_pointer, bad_shift, int_overflow, Result, ok, err, trap, Safely, Safely-mono,
}
use gameoftrees.Delta.{
  Cursor, read_byte, advance, next_delta_byte, start, Round, next, break_err, return_err, trapped,
  memcpy_out, apply_round, Ending, left, returned, crashed, stuck, apply_loop, after_round,
  apply_in_mem, copied, copy_base, copy_inline, dispatch, enter_loop, apply_sized, check_size,
}
use gameoftrees.Delta.Parsing.{
  IsTied, Moved, Any, advance-IsTied, next_delta_byte-Moved, read_byte-safe, parse_opcode-safe,
  parse_delta_sizes-safe,
}

-- What a round leaves, with `max` bytes of room in `outbuf`: never more than fits, no access out
-- of bounds, and a counter that has gone down.
abbrev RoundFits : ℕ → Cursor → Round → Type 0
RoundFits max c (next c' out) = IsTied c' × (c'.remain < c.remain) × (length out ≤ max)
RoundFits max c (break_err e out) = length out ≤ max
RoundFits max c (return_err e out) = length out ≤ max
RoundFits max c (trapped bad_shift) = Unit
RoundFits max c (trapped _) = ⊥

-- `memcpy` behind a check that the source has the bytes and that the output has room for them.
pub memcpy_out-some :
    (max : ℕ) (out src : Bytes) (len : ℕ)
    → len ≤ length src
    → length out + len ≤ max
    → memcpy_out max out src len ≡ some (out ++ take len src)
unfolding memcpy_out
memcpy_out-some max out src len h k = ground arith

copied-fits :
    (max : ℕ) (c c' : Cursor) (out src : Bytes) (len : ℕ)
    → IsTied c'
    → c'.remain < c.remain
    → len ≤ length src
    → length out + len ≤ max
    → RoundFits max c (copied c' (memcpy_out max out src len))
unfolding copied
copied-fits max c c' out src len t s h k =
    rw (memcpy_out-some max out src len h k)
      (t, s, omega (arith, length-append out (take len src), length-take len src))

-- How got_delta_apply_in_mem may end: with at most `max` bytes of output, and neither with an
-- access out of bounds nor out of fuel.
abbrev pub EndsSafely : ℕ → Ending → Type 0
EndsSafely max (left e out) = length out ≤ max
EndsSafely max (returned e out) = length out ≤ max
EndsSafely max (crashed bad_shift) = Unit
EndsSafely max (crashed _) = ⊥
EndsSafely max stuck = ⊥

module _ (base : Bytes) (max : ℕ) (apart : length base + max < 2 ^ 64) where
  copy_base-fits :
      (c : Cursor) (out : Bytes) (r : Result (ℕ × ℕ × Cursor))
      → length out ≤ max
      → Safely (λ x. Moved c x.2) r
      → RoundFits max c (copy_base base max out r)
  unfolding copy_base
  copy_base-fits c out (err e) fits s = fits
  copy_base-fits c out (trap bad_shift) fits s = tt
  copy_base-fits c out (trap out_of_bounds) fits s = s
  copy_base-fits c out (trap null_pointer) fits s = s
  copy_base-fits c out (trap int_overflow) fits s = s
  copy_base-fits c out (ok (offset, len, c')) fits m = ground (
    arith,
    moved,
    length-drop offset base,
    copied-fits max c (advance 1 c') out (drop offset base) len,
    advance-IsTied 1 c' moved.tied,
  )
    where
      moved : Moved c c'
      moved = m

  copy_inline-fits :
      (c : Cursor) (out : Bytes) (len : ℕ) (r : Result Cursor)
      → length out ≤ max
      → len ≢ 0
      → Safely (Moved c) r
      → RoundFits max c (copy_inline max out len r)
  unfolding copy_inline
  copy_inline-fits c out len (err e) fits ne s = fits
  copy_inline-fits c out len (trap bad_shift) fits ne s = tt
  copy_inline-fits c out len (trap out_of_bounds) fits ne s = s
  copy_inline-fits c out len (trap null_pointer) fits ne s = s
  copy_inline-fits c out len (trap int_overflow) fits ne s = s
  copy_inline-fits c out len (ok c') fits ne m =
      ground (arith, copied-fits max c (advance len c') out c'.at len, advance-IsTied len c' m.tied)

  dispatch-fits :
      (c : Cursor) (out : Bytes) (r : Result ℕ)
      → IsTied c
      → 0 < c.remain
      → length out ≤ max
      → Safely Any r
      → RoundFits max c (dispatch base max c out r)
  unfolding dispatch
  dispatch-fits c out (err e) t h fits s = fits
  dispatch-fits c out (trap bad_shift) t h fits s = tt
  dispatch-fits c out (trap out_of_bounds) t h fits s = s
  dispatch-fits c out (trap null_pointer) t h fits s = s
  dispatch-fits c out (trap int_overflow) t h fits s = s
  dispatch-fits c out (ok b) t h fits s = elim (Bool-cases (bit_and b 0x80 == 0)) [
    | inr copy ↦ rw copy (copy_base-fits c out _ fits (parse_opcode-safe c t h))
    | inl inline ↦ rw inline (elim (Bool-cases (b == 0)) [
      | inl empty ↦ rw empty fits
      | inr some_data ↦
          rw some_data
            (copy_inline-fits c out b _ fits (ground arith) (next_delta_byte-Moved c t h))
    ])
  ]

  apply_round-fits :
      (c : Cursor) (out : Bytes)
      → IsTied c
      → 0 < c.remain
      → length out ≤ max
      → RoundFits max c (apply_round base max c out)
  unfolding apply_round
  apply_round-fits c out t h fits =
      dispatch-fits c out (read_byte c) t h fits (read_byte-safe c t h)

  after_round-safe :
      (c : Cursor) (loop : Cursor → Bytes → Ending) (r : Round)
      → RoundFits max c r
      → ((c' : Cursor) (out : Bytes)
          → IsTied c'
          → c'.remain < c.remain
          → length out ≤ max
          → EndsSafely max (loop c' out))
      → EndsSafely max (after_round loop r)
  unfolding after_round
  after_round-safe c loop (next c' out) f k = k c' out f.0 f.1 f.2
  after_round-safe c loop (break_err e out) f k = f
  after_round-safe c loop (return_err e out) f k = f
  after_round-safe c loop (trapped bad_shift) f k = tt
  after_round-safe c loop (trapped out_of_bounds) f k = f
  after_round-safe c loop (trapped null_pointer) f k = f
  after_round-safe c loop (trapped int_overflow) f k = f

  apply_loop-safe :
      (fuel : ℕ) (c : Cursor) (out : Bytes)
      → IsTied c
      → c.remain ≤ fuel
      → length out ≤ max
      → EndsSafely max (apply_loop fuel base max c out)
  unfolding apply_loop
  apply_loop-safe zero c out t h fits = ground arith
  apply_loop-safe (suc fuel) c out t h fits = elim (Bool-cases (c.remain == 0)) [
    | inl done ↦ rw done fits
    | inr more ↦ rw more (
        after_round-safe c _ (apply_round base max c out)
          (apply_round-fits c out t (ground arith) fits)
          (λ c' out' t' less fits'. apply_loop-safe fuel c' out' t' (omega arith) fits'))
  ]

  check_size-safe : (n : ℕ) (e : Ending) → EndsSafely max e → EndsSafely max (check_size n e)
  unfolding check_size
  check_size-safe n (left e out) s = ground arith
  check_size-safe n (returned e out) s = s
  check_size-safe n (crashed bad_shift) s = tt
  check_size-safe n (crashed out_of_bounds) s = s
  check_size-safe n (crashed null_pointer) s = s
  check_size-safe n (crashed int_overflow) s = s
  check_size-safe n stuck s = s

  enter_loop-safe :
      (r : Result Cursor) → Safely (λ c. IsTied c) r → EndsSafely max (enter_loop base max r)
  unfolding enter_loop
  enter_loop-safe (err e) s = omega arith
  enter_loop-safe (trap bad_shift) s = tt
  enter_loop-safe (trap out_of_bounds) s = s
  enter_loop-safe (trap null_pointer) s = s
  enter_loop-safe (trap int_overflow) s = s
  enter_loop-safe (ok c) t = apply_loop-safe c.remain c [] t (omega arith) (omega arith)

  apply_sized-safe :
      (c : Cursor) (r : Result (ℕ × ℕ × Cursor))
      → Safely (λ x. Moved c x.2) r
      → EndsSafely max (apply_sized base max r)
  unfolding apply_sized
  apply_sized-safe c (err e) s = omega arith
  apply_sized-safe c (trap bad_shift) s = tt
  apply_sized-safe c (trap out_of_bounds) s = s
  apply_sized-safe c (trap null_pointer) s = s
  apply_sized-safe c (trap int_overflow) s = s
  apply_sized-safe c (ok (base_size, result_size, c')) m = check_size-safe result_size _ (
      enter_loop-safe (next_delta_byte c') (
        Safely-mono (Moved c') (λ c''. IsTied c'') _ (λ c'' n. n.tied)
          (next_delta_byte-Moved c' m.tied m.readable)))

-- On any delta stream, where base and output fit one address space, got_delta_apply_in_mem reads
-- inside the stream and the base and writes inside the output's `max` bytes, ends, and leaves at
-- most `max` bytes of output, unless it evaluates an undefined shift in a size field.
pub apply_in_mem-safe :
    (base delta_buf : Bytes) (max : ℕ)
    → length base + max < 2 ^ 64
    → length delta_buf < 2 ^ 64
    → EndsSafely max (apply_in_mem base delta_buf max)
unfolding apply_in_mem
apply_in_mem-safe base delta_buf max apart fits = elim (Bool-cases (ltb (length delta_buf) 4)) [
  | inl short ↦ rw short (omega arith)
  | inr long ↦ rw long (
      apply_sized-safe base max apart (start delta_buf) _ (
        parse_delta_sizes-safe (start delta_buf) (record { counts = refl; fits = fits })
          (ground arith)))
]
