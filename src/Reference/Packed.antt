-- ===== src/Reference/Packed.antt =====
-- The file of packed references: what open_packed_ref finds in it.
use gameoftrees.Base.{
  ℕ, ◌+◌, ◌<◌, ◌≡◌, refl, sym, ap, ◌∙◌, true, false, List, [], ◌∷◌, ◌++◌, Bytes, Option, none, some,
  arith, All, length, bytes_eq, if◌then◌else◌, drop, leb, Option-cases, inl, inr, length-append,
  drop-append, append_assoc,
}
use gameoftrees.Error.{ok, ◌>>=◌}
use gameoftrees.Digest.{parse_sha1_digest, digest_text, digit}
use gameoftrees.Digest.RoundTrip.{parse_sha1_digest-digest_text}
use gameoftrees.Reference.{Reference, ref, has_prefix, starts, refs_slash}
use gameoftrees.Reference.Open.{
  up_to_nul, line_buffer, string_at, named, parse_packed_ref_line, packed_subdirs, open_packed_ref,
  absolute_name,
}
use gameoftrees.Reference.File.{IsText, All-digest_text}

-- A line of the file: a comment, what "git gc" notes of the tag on the line before, or a reference.
pub data PackedLine : Type 0 where
  comment peeled : Bytes → PackedLine
  entry : (name sha1 : Bytes) → PackedLine

abbrev pub packed_text : PackedLine → Bytes
packed_text (comment text) = b'#' ∷ text ++ 10 ∷ []
packed_text (peeled text) = b'^' ∷ text ++ 10 ∷ []
packed_text (entry name sha1) = (digest_text sha1 ++ (b' ' ∷ name)) ++ (10 ∷ [])

abbrev pub IsPackable : PackedLine → Type 0
IsPackable (comment text) = Unit
IsPackable (peeled text) = Unit
IsPackable (entry name sha1) = All IsText name × (length sha1 ≡ 20) × All (λ b. b < 256) sha1

abbrev pub match : Bytes → PackedLine → Option Reference
match refname (comment text) = none
match refname (peeled text) = none
match refname (entry name sha1) =
    if bytes_eq name refname then some (ref refname sha1 true) else none

-- The first line for a name.
abbrev pub lookup : Bytes → List PackedLine → Option Reference
lookup refname [] = none
lookup refname (l ∷ lines) = elim (match refname l) [
  | some r ↦ some r
  | none ↦ lookup refname lines
]

length-digest_text : (sha1 : Bytes) → length (digest_text sha1) ≡ length sha1 + length sha1
unfolding digest_text
length-digest_text [] = refl
length-digest_text (b ∷ sha1) = omega (arith, length-digest_text sha1)

line_buffer-text : (s : Bytes) → All IsText s → line_buffer (s ++ 10 ∷ []) ≡ s ++ 0 ∷ 0 ∷ []
line_buffer-text [] h = refl
line_buffer-text (c ∷ []) h = ground arith
line_buffer-text (c ∷ d ∷ s) h = ground (arith, line_buffer-text (d ∷ s) h.1)

up_to_nul-text : (s : Bytes) → All IsText s → up_to_nul (s ++ 0 ∷ 0 ∷ []) ≡ s
up_to_nul-text [] h = refl
up_to_nul-text (c ∷ s) h = ground (arith, up_to_nul-text s h.1)

All-append : (a b : Bytes) → All IsText a → All IsText b → All IsText (a ++ b)
All-append [] b h k = k
All-append (c ∷ a) b h k = (h.0, All-append a b h.1 k)

not_comment :
    (sha1 rest : Bytes)
    → length sha1 ≡ 20
    → All (λ b. b < 256) sha1
    → (starts b'#' (digest_text sha1 ++ rest) ≡ false)
      × (starts b'^' (digest_text sha1 ++ rest) ≡ false)
unfolding digest_text digit
not_comment [] rest n h = absurd (omega arith)
not_comment (b ∷ sha1) rest n h = (ground arith, ground arith)

-- The digits of an identifier and the space behind them.
abbrev prefix : Bytes → Bytes
prefix sha1 = digest_text sha1 ++ b' ' ∷ []

length-prefix : (sha1 : Bytes) → length sha1 ≡ 20 → length (prefix sha1) ≡ 41
length-prefix sha1 n =
    omega (arith, length-append {0} (digest_text sha1) (b' ' ∷ []), length-digest_text sha1)

-- The string of a line.
abbrev digits_name : Bytes → Bytes → Bytes
digits_name name sha1 = digest_text sha1 ++ (b' ' ∷ name)

All-digits_name :
    (name sha1 : Bytes) → IsPackable (entry name sha1) → All IsText (digits_name name sha1)
All-digits_name name sha1 (t, n, h) =
    All-append (digest_text sha1) (b' ' ∷ name) (All-digest_text sha1 h)
      ((omega arith, omega arith), t)

entry_name :
    (name sha1 : Bytes)
    → IsPackable (entry name sha1)
    → string_at (digits_name name sha1 ++ 0 ∷ 0 ∷ []) 41 ≡ ok name
unfolding string_at
entry_name name sha1 (t, n, h) =
    let buffer : Bytes = digits_name name sha1 ++ 0 ∷ 0 ∷ [] in
    let rest : Bytes = name ++ 0 ∷ 0 ∷ [] in
    let parts : buffer ≡ prefix sha1 ++ rest =
      ap (λ (b : Bytes). b ++ 0 ∷ 0 ∷ []) (sym (append_assoc (digest_text sha1) (b' ' ∷ []) name))
      ∙ append_assoc (prefix sha1) name (0 ∷ 0 ∷ []) in
    let at : drop 41 (prefix sha1 ++ rest) ≡ rest =
      ap (λ (k : ℕ). drop k (prefix sha1 ++ rest)) (sym (length-prefix sha1 n))
      ∙ drop-append (prefix sha1) rest in
    let inside : leb (length (prefix sha1 ++ rest)) 41 ≡ false = ground (
      arith,
      length-append {0} (prefix sha1) rest,
      length-append {0} name (0 ∷ 0 ∷ []),
      length-prefix sha1 n,
    ) in
    ap (λ (b : Bytes). string_at b 41) parts
    ∙ rw (string_at, inside, at, up_to_nul-text name t) refl

parse_packed_ref_line-match :
    (refname : Bytes) (l : PackedLine)
    → IsPackable l
    → parse_packed_ref_line (some refname) (line_buffer (packed_text l)) ≡ ok (match refname l)
unfolding parse_packed_ref_line named
parse_packed_ref_line-match refname (comment text) h = refl
parse_packed_ref_line-match refname (peeled text) h = refl
parse_packed_ref_line-match refname (entry name sha1) (t, n, h) =
    let text : All IsText (digits_name name sha1) = All-digits_name name sha1 (t, n, h) in
    let plain = not_comment sha1 (b' ' ∷ name) n h in
    let parsed : parse_sha1_digest (digits_name name sha1) ≡ some sha1 =
      parse_sha1_digest-digest_text sha1 (b' ' ∷ name) n h in
    let named_at : string_at (line_buffer (packed_text (entry name sha1))) 41 ≡ ok name =
      ap (λ (b : Bytes). string_at b 41) (line_buffer-text (digits_name name sha1) text)
      ∙ entry_name name sha1 (t, n, h) in
    rw
      (
        line_buffer-text (digits_name name sha1) text,
        up_to_nul-text (digits_name name sha1) text,
        plain.0,
        plain.1,
        parsed,
        named_at,
      )
      refl

absolute_name_lem :
    (refname d : Bytes) → has_prefix refs_slash refname ≡ true → absolute_name refname d ≡ refname
absolute_name_lem refname d h = rw h refl

module _ (refname : Bytes) (absolute : has_prefix refs_slash refname ≡ true) (l : PackedLine)
    (h : IsPackable l) where
  subdir-match :
      (d : Bytes)
      → parse_packed_ref_line (some (absolute_name refname d)) (line_buffer (packed_text l))
        ≡ ok (match refname l)
  subdir-match d =
      ap (λ (n : Bytes). parse_packed_ref_line (some n) (line_buffer (packed_text l)))
        (absolute_name_lem refname d absolute)
      ∙ parse_packed_ref_line-match refname l h

  packed_subdirs-none :
      (ds : List Bytes)
      → match refname l ≡ none
      → packed_subdirs refname (line_buffer (packed_text l)) ds ≡ ok none
  unfolding packed_subdirs
  packed_subdirs-none [] m = refl
  packed_subdirs-none (d ∷ ds) m =
      rw (packed_subdirs, subdir-match d, ◌>>=◌, m) (packed_subdirs-none ds m)

  packed_subdirs-match :
      (d : Bytes) (ds : List Bytes)
      → packed_subdirs refname (line_buffer (packed_text l)) (d ∷ ds) ≡ ok (match refname l)
  unfolding packed_subdirs
  packed_subdirs-match d ds = elim (Option-cases (match refname l)) [
    | inl m ↦ packed_subdirs-none (d ∷ ds) m ∙ ap ok (sym m)
    | inr (r, m) ↦ rw (packed_subdirs, subdir-match d, ◌>>=◌, m) refl
  ]

abbrev pub packed_file : List PackedLine → List Bytes
packed_file [] = []
packed_file (l ∷ lines) = packed_text l ∷ packed_file lines

-- In a file of comments, notes of tags and references whose identifiers are 20 bytes and whose
-- names have no NUL or newline, open_packed_ref finds for a name that begins with "refs/" the
-- reference on the first line for that very name, and leaves NULL exactly if there is no such line.
pub open_packed_ref-lookup :
    (refname : Bytes) (lines : List PackedLine)
    → has_prefix refs_slash refname ≡ true
    → All IsPackable lines
    → open_packed_ref refname (packed_file lines) false ≡ ok (lookup refname lines)
unfolding open_packed_ref
open_packed_ref-lookup refname [] absolute h = refl
open_packed_ref-lookup refname (l ∷ lines) absolute h = elim (Option-cases (match refname l)) [
  | inl m ↦
      rw (open_packed_ref, packed_subdirs-match refname absolute l h.0, ◌>>=◌, lookup, m)
        (open_packed_ref-lookup refname lines absolute h.1)
  | inr (r, m) ↦
      rw (open_packed_ref, packed_subdirs-match refname absolute l h.0, ◌>>=◌, lookup, m) refl
]
