-- ===== src/ObjectCreate/Trim.antt =====
-- How the message of a commit is trimmed.
use gameoftrees.Base.{
  ℕ, zero, suc, ◌≡◌, refl, [], ◌∷◌, Bytes, get_elem?, All, length, take, Bool-cases, Option-cases,
  inl, inr,
}
use gameoftrees.Digest.{is_space, skip_spaces}
use gameoftrees.ObjectCreate.{trim_loop, trim}

pub skip_spaces-All : (Q : ℕ → Type 0) (s : Bytes) → All Q s → All Q (skip_spaces s)
unfolding skip_spaces
skip_spaces-All Q [] h = tt
skip_spaces-All Q (c ∷ s) h = elim (Bool-cases (is_space c)) [
  | inl e ↦ rw e (skip_spaces-All Q s h.1)
  | inr e ↦ rw e h
]

take-All : (Q : ℕ → Type 0) (n : ℕ) (s : Bytes) → All Q s → All Q (take n s)
take-All Q zero s h = tt
take-All Q (suc n) [] h = tt
take-All Q (suc n) (c ∷ s) h = (h.0, take-All Q n s h.1)

trim_loop-All : (Q : ℕ → Type 0) (n : ℕ) (s : Bytes) → All Q s → All Q (trim_loop n s)
unfolding trim_loop
trim_loop-All Q zero s h = tt
trim_loop-All Q (suc n) s h = elim (Option-cases (get_elem? s n)) [
  | inl e ↦ let all : trim_loop (suc n) s ≡ s = rw (trim_loop, e) refl in rw all h
  | inr (c, e) ↦ elim (Bool-cases (is_space c)) [
    | inl b ↦
        let less : trim_loop (suc n) s ≡ trim_loop n s = rw (trim_loop, e, b) refl in
        rw less (trim_loop-All Q n s h)
    | inr b ↦
        let last : trim_loop (suc n) s ≡ take (suc n) s = rw (trim_loop, e, b) refl in
        rw last (take-All Q (suc n) s h)
  ]
]

-- What holds of the bytes of a message holds of those that are left.
pub trim-All : (Q : ℕ → Type 0) (s : Bytes) → All Q s → All Q (trim s)
unfolding trim
trim-All Q s h = trim_loop-All Q (length (skip_spaces s)) (skip_spaces s) (skip_spaces-All Q s h)
