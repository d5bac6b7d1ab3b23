-- ===== src/Reference/Names.antt =====
-- is_valid_ref_name and the rules for the components of a reference's name.
use gameoftrees.Base.{
  ℕ, ◌≤◌, ◌≡◌, refl, sym, ◌∙◌, Bool, Bool-cases, inl, inr, true, false, ◌&&◌, ◌||◌, not, List, [],
  ◌∷◌, Bytes, ◌==◌, if◌then◌else◌, length, bytes_eq, arith,
}
use gameoftrees.Reference.{
  is_cntrl, forbidden, starts, is_empty, bad_segment, is_lockfile, name_loop, is_valid_ref_name,
}

-- A name's first component, and what stands behind its slash.
abbrev pub first : Bytes → Bytes
first [] = []
first (c ∷ s) = if c == b'/' then [] else c ∷ first s

abbrev pub others : Bytes → List Bytes
others [] = []
others (c ∷ s) = if c == b'/' then first s ∷ others s else others s

abbrev pub lock_suffix : Bytes
lock_suffix = b'.' ∷ b'l' ∷ b'o' ∷ b'c' ∷ b'k' ∷ []

abbrev pub ends_in_lock : Bytes → Bool
ends_in_lock [] = false
ends_in_lock (c ∷ s) = bytes_eq (c ∷ s) lock_suffix || ends_in_lock s

abbrev pub ends_in_dot : Bytes → Bool
ends_in_dot [] = false
ends_in_dot (c ∷ s) = if is_empty s then c == b'.' else ends_in_dot s

-- No byte of a component is forbidden, and neither ".." nor "@{" is in it.
abbrev pub is_plain : Bytes → Bool
is_plain [] = true
is_plain (c ∷ s) =
    not (forbidden c)
    && not (is_cntrl c)
    && not (c == b'.' && starts b'.' s)
    && not (c == b'@' && starts b'{' s)
    && is_plain s

abbrev pub is_component : Bytes → Bool
is_component s = not (is_empty s) && not (starts b'.' s) && is_plain s && not (ends_in_lock s)

abbrev pub all_components : List Bytes → Bool
all_components [] = true
all_components (c ∷ l) = is_component c && all_components l

-- A segment's bytes, the last one first, in front of what follows.
abbrev onto : Bytes → Bytes → Bytes
onto [] s = s
onto (c ∷ seg) s = onto seg (c ∷ s)

swapped :
    (a b c d e : Bool)
    → (a && (b && (c && (d && (e && true))))) ≡ (e && (d && (c && (b && (a && true)))))
swapped true b c d e = ground arith
swapped false b c d e = ground arith

or_false : (a : Bool) {b : Bool} → b ≡ false → (a || b) ≡ a
or_false true h = refl
or_false false h = h

bytes_eq-length : (a b : Bytes) → (length a ≡ length b → ⊥) → bytes_eq a b ≡ false
unfolding bytes_eq
bytes_eq-length [] [] h = absurd (h refl)
bytes_eq-length [] (y ∷ b) h = refl
bytes_eq-length (x ∷ a) [] h = refl
bytes_eq-length (x ∷ a) (y ∷ b) h = ground (arith, bytes_eq-length a b (λ e. h (omega (arith, e))))

ends_in_lock-long : (c : ℕ) (s : Bytes) → 5 ≤ length s → ends_in_lock (c ∷ s) ≡ ends_in_lock s
ends_in_lock-long c s h = rw (bytes_eq-length (c ∷ s) lock_suffix (λ e. omega (arith, e))) refl

ends_in_lock-onto : (seg s : Bytes) → 5 ≤ length s → ends_in_lock (onto seg s) ≡ ends_in_lock s
ends_in_lock-onto [] s h = refl
ends_in_lock-onto (c ∷ seg) s h =
    ends_in_lock-onto seg (c ∷ s) (omega arith) ∙ ends_in_lock-long c s h

ends_in_lock-short : (s : Bytes) → length s ≤ 4 → ends_in_lock s ≡ false
ends_in_lock-short [] h = refl
ends_in_lock-short (c ∷ s) h =
    rw (bytes_eq-length (c ∷ s) lock_suffix (λ e. omega (arith, e)))
      (ends_in_lock-short s (omega arith))

mirrored :
    (a b c d e : ℕ)
    → bytes_eq (a ∷ b ∷ c ∷ d ∷ e ∷ []) (b'k' ∷ b'c' ∷ b'o' ∷ b'l' ∷ b'.' ∷ [])
      ≡ bytes_eq (e ∷ d ∷ c ∷ b ∷ a ∷ []) lock_suffix
unfolding bytes_eq
mirrored a b c d e = swapped (a == b'k') (b == b'c') (c == b'o') (d == b'l') (e == b'.')

is_lockfile-onto : (seg : Bytes) → is_lockfile seg ≡ ends_in_lock (onto seg [])
is_lockfile-onto [] = bytes_eq-length [] _ (λ e. omega (arith, e))
is_lockfile-onto (a ∷ []) =
    bytes_eq-length (a ∷ []) _ (λ e. omega (arith, e))
    ∙ sym (ends_in_lock-short (onto (a ∷ []) []) (omega arith))
is_lockfile-onto (a ∷ b ∷ []) =
    bytes_eq-length (a ∷ b ∷ []) _ (λ e. omega (arith, e))
    ∙ sym (ends_in_lock-short (onto (a ∷ b ∷ []) []) (omega arith))
is_lockfile-onto (a ∷ b ∷ c ∷ []) =
    bytes_eq-length (a ∷ b ∷ c ∷ []) _ (λ e. omega (arith, e))
    ∙ sym (ends_in_lock-short (onto (a ∷ b ∷ c ∷ []) []) (omega arith))
is_lockfile-onto (a ∷ b ∷ c ∷ d ∷ []) =
    bytes_eq-length (a ∷ b ∷ c ∷ d ∷ []) _ (λ e. omega (arith, e))
    ∙ sym (ends_in_lock-short (onto (a ∷ b ∷ c ∷ d ∷ []) []) (omega arith))
is_lockfile-onto (a ∷ b ∷ c ∷ d ∷ e ∷ seg) =
    mirrored a b c d e
    ∙ sym (or_false _ (ends_in_lock-short (d ∷ c ∷ b ∷ a ∷ []) (omega arith)))
    ∙ sym (ends_in_lock-onto seg (e ∷ d ∷ c ∷ b ∷ a ∷ []) (omega arith))

-- What a component starts with.
starts-first : (x : ℕ) (s : Bytes) → (x == b'/') ≡ false → starts x (first s) ≡ starts x s
starts-first x [] h = refl
starts-first x (c ∷ s) h = ground arith

bad_segment-first : (s : Bytes) → bad_segment s ≡ (is_empty (first s) || starts b'.' (first s))
bad_segment-first [] = refl
bad_segment-first (c ∷ s) = ground arith

name_loop_end :
    (seg : Bytes) → name_loop seg [] ≡ (true && not (ends_in_lock (onto seg [])) && true && true)
unfolding name_loop
name_loop_end seg = rw (is_lockfile-onto seg) (ground arith)

name_loop_slash :
    (seg s : Bytes)
    → name_loop seg (b'/' ∷ s) ≡ (not (bad_segment s) && not (is_lockfile seg) && name_loop [] s)
unfolding name_loop forbidden is_cntrl
name_loop_slash seg s = ground arith

name_loop_other :
    (c : ℕ) (seg s : Bytes)
    → (c == b'/') ≡ false
    → name_loop seg (c ∷ s) ≡ (
        not (forbidden c)
        && not (is_cntrl c)
        && not (c == b'.' && starts b'.' s)
        && not (c == b'@' && starts b'{' s)
        && not (c == b'.' && is_empty s)
        && name_loop (c ∷ seg) s)
unfolding name_loop
name_loop_other c seg s other = ground arith

slash_tests :
    (l e d p k o z empty : Bool)
    → (empty ≡ true → z ≡ false)
    → (not (e || d) && not l && (p && not k && o && not z))
      ≡ (true && not l && (not e && not d && p && not k && o) && not (if empty then false else z))
slash_tests true e d p k o z empty h = ground arith
slash_tests false true d p k o z empty h = ground arith
slash_tests false false d p k o z true h = ground arith
slash_tests false false d p k o z false h = ground arith

other_tests :
    (f c t u empty dot p k o z : Bool)
    → (empty ≡ true → z ≡ false)
    → (not f && not c && not t && not u && not (dot && empty) && (p && not k && o && not z))
      ≡ ((not f && not c && not t && not u && p) && not k && o && not (if empty then dot else z))
other_tests true c t u empty dot p k o z h = refl
other_tests false true t u empty dot p k o z h = refl
other_tests false false t u true dot p k o z h = ground arith
other_tests false false t u false dot p k o z h = ground arith

dot_after : (s : Bytes) → is_empty s ≡ true → ends_in_dot s ≡ false
dot_after [] h = refl
dot_after (c ∷ s) h = cc

name_loop_lem :
    (seg s : Bytes)
    → name_loop seg s ≡ (
        is_plain (first s)
        && not (ends_in_lock (onto seg (first s)))
        && all_components (others s)
        && not (ends_in_dot s))
name_loop_lem seg [] = name_loop_end seg
name_loop_lem seg (c ∷ s) = elim (Bool-cases (c == b'/')) [
  | inl slash ↦
      let same : c ≡ b'/' = ground arith in
      rw same (
        name_loop_slash seg s
        ∙ rw (is_lockfile-onto seg, bad_segment-first s, name_loop_lem [] s)
            (slash_tests (ends_in_lock (onto seg [])) (is_empty (first s)) (starts b'.' (first s))
              (is_plain (first s)) (ends_in_lock (first s)) (all_components (others s))
              (ends_in_dot s) (is_empty s) (dot_after s)))
  | inr other ↦
      name_loop_other c seg s other
      ∙ rw (other, name_loop_lem (c ∷ seg) s)
          (rw (starts-first b'.' s refl, starts-first b'{' s refl)
            (other_tests (forbidden c) (is_cntrl c) (c == b'.' && starts b'.' s)
              (c == b'@' && starts b'{' s) (is_empty s) (c == b'.') (is_plain (first s))
              (ends_in_lock (onto seg (c ∷ first s))) (all_components (others s)) (ends_in_dot s)
              (dot_after s)))
]

name_tests :
    (at e d p k o z : Bool)
    → (if at then false else if e || d then false else (p && not k && o && not z))
      ≡ (not at && (not e && not d && p && not k && o) && not z)
name_tests true e d p k o z = refl
name_tests false true d p k o z = refl
name_tests false false true p k o z = refl
name_tests false false false p k o z = refl

-- is_valid_ref_name accepts a name exactly if the name is not "@", does not end in a dot, and each
-- of its components, which slashes divide, is not empty, does not start with a dot, does not end in
-- ".lock", has no control character, space, "~", "^", ":", "?", "*", "[" or backslash, and holds
-- neither ".." nor "@{".
pub is_valid_ref_name_lem :
    (name : Bytes)
    → is_valid_ref_name name ≡ (
        not (bytes_eq name (b'@' ∷ []))
        && all_components (first name ∷ others name)
        && not (ends_in_dot name))
unfolding is_valid_ref_name
is_valid_ref_name_lem name =
    rw (bad_segment-first name, name_loop_lem [] name)
      (name_tests (bytes_eq name (b'@' ∷ [])) (is_empty (first name)) (starts b'.' (first name))
        (is_plain (first name)) (ends_in_lock (first name)) (all_components (others name))
        (ends_in_dot name))
