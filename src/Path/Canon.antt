-- ===== src/Path/Canon.antt =====
-- got_canonpath of lib/path.c. The buffer up to `q` is kept from its last byte to its first.
pub mod Resolve
pub mod Idempotent
use gameoftrees.Base.{
  ℕ, zero, suc, Bool, true, false, ◌&&◌, ◌||◌, not, List, [], ◌∷◌, Bytes, Option, none, some, ltb,
  leb, ◌==◌, if◌then◌else◌, length, drop,
}
use gameoftrees.Error.{no_space, out_of_bounds, Result, ok, err, trap}
use gameoftrees.Path.{char_at, slash, dot, is_absolute}

-- `rev_onto xs ys` is `xs` reversed, with `ys` behind it.
abbrev pub rev_onto {ℓ} : {A : Type ℓ} → List A → List A → List A
rev_onto [] ys = ys
rev_onto (x ∷ xs) ys = rev_onto xs (x ∷ ys)

-- `while (*--q != '/') continue`; `none` runs past the start of the buffer.
pub pop_to_slash : Bytes → Option Bytes
pop_to_slash [] = none
pop_to_slash (c ∷ q) = let rest = pop_to_slash q in if c == slash then some q else rest

pub pop_dir : Bytes → Option Bytes
pop_dir [] = some []
pop_dir (c ∷ q) = pop_to_slash (c ∷ q)

-- `p[i] == '/' || p[i] == '\0'`
abbrev ends_at : Bytes → ℕ → Bool
ends_at p i = char_at p i == slash || char_at p i == 0

abbrev moved : Bytes → Option Bytes → Option (Bytes × Bytes)
moved p none = none
moved p (some q) = some (p, q)

-- One round of the loop: `p` and `q` after it.
pub canon_step : Bytes → Bytes → Option (Bytes × Bytes)
canon_step p q =
    if char_at p 0 == slash && ends_at p 1
    then some (drop 1 p, q)
    else if char_at p 0 == slash && char_at p 1 == dot && ends_at p 2
    then some (drop 2 p, q)
    else if char_at p 0 == slash && char_at p 1 == dot && char_at p 2 == dot && ends_at p 3
    then moved (drop 3 p) (pop_dir q)
    else some (drop 1 p, char_at p 0 ∷ q)

pub canon_finish : ℕ → Bytes → Bytes → Result Bytes
canon_finish bufsize p q =
    if char_at p 0 == 0 && ltb (length q) bufsize then ok (rev_onto q []) else err no_space

pub canon_next : (Bytes → Bytes → Result Bytes) → Option (Bytes × Bytes) → Result Bytes
canon_next loop (some (p, q)) = loop p q
canon_next loop none = trap out_of_bounds

-- A round takes a byte of the input at least, so that as many rounds as bytes are enough: without
-- fuel the input is at its end.
pub canon_loop : ℕ → ℕ → Bytes → Bytes → Result Bytes
canon_loop zero bufsize p q = canon_finish bufsize p q
canon_loop (suc fuel) bufsize p q =
    let more = canon_next (λ p' q'. canon_loop fuel bufsize p' q') (canon_step p q) in
    if not (char_at p 0 == 0) && ltb (length q) bufsize then more else canon_finish bufsize p q

pub canonpath : Bytes → ℕ → Result Bytes
canonpath input bufsize =
    if not (is_absolute input)
    then (if leb bufsize (length input) then err no_space else ok input)
    else canon_loop (length input) bufsize input []
