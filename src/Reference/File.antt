-- ===== src/Reference/File.antt =====
-- Writing a reference to its file, and reading it back.
use gameoftrees.Base.{
  ℕ, ◌≤◌, ◌<◌, ◌≡◌, ◌≢◌, refl, sym, ap, ◌∙◌, false, [], ◌∷◌, ◌++◌, Bytes, Option, none, some, arith,
  All, length, bytes_eq, append-nil, ◌/◌, ◌%◌,
}
use gameoftrees.Error.{ok}
use gameoftrees.Digest.{sha1_digest_to_str, parse_sha1_digest, digest_text, digit}
use gameoftrees.Digest.RoundTrip.{parse_sha1_digest-digest_text}
use gameoftrees.Reference.{Reference, ref, symref, has_prefix}
use gameoftrees.Reference.Open.{
  first_line, up_to_nul, strip_newlines, symref_prefix, parse_symref, parse_ref_line,
  parse_ref_file,
}

-- What got_ref_write prints for a reference.
unfoldable pub ref_contents : Reference → Option Bytes
ref_contents (symref name target) = some (symref_prefix ++ target ++ 10 ∷ [])
ref_contents (ref name sha1 packed) = elim (sha1_digest_to_str sha1 41) [
  | none ↦ none
  | some hex ↦ some (hex ++ 10 ∷ [])
]

pub ref_to_str : Reference → Option Bytes
ref_to_str (symref name target) = some target
ref_to_str (ref name sha1 packed) = sha1_digest_to_str sha1 41

-- A byte that stands in a name.
abbrev pub IsText : ℕ → Type 0
IsText c = (c ≢ 0) × (c ≢ 10)

-- A reference that is not packed, whose identifier is a digest or whose target is a name.
abbrev pub IsWritable : Reference → Type 0
IsWritable (symref name target) = All IsText target × (1 ≤ length target)
IsWritable (ref name sha1 packed) = (length sha1 ≡ 20) × All (λ b. b < 256) sha1 × (packed ≡ false)

abbrev pub name_of : Reference → Bytes
name_of (symref name target) = name
name_of (ref name sha1 packed) = name

strip_newlines-text : (s : Bytes) → All IsText s → up_to_nul (strip_newlines (s ++ 10 ∷ [])) ≡ s
strip_newlines-text [] h = refl
strip_newlines-text (c ∷ s) h = ground (arith, strip_newlines-text s h.1)

pub digit-IsText : (d : ℕ) → d < 16 → IsText (digit d) × (digit d ≢ b'r')
unfolding digit
digit-IsText d h = ground arith

pub All-digest_text : (sha1 : Bytes) → All (λ b. b < 256) sha1 → All IsText (digest_text sha1)
unfolding digest_text
All-digest_text [] h = tt
All-digest_text (b ∷ sha1) h = (
  (digit-IsText (b / 16) (omega arith)).0,
  ((digit-IsText (b % 16) (omega arith)).0, All-digest_text sha1 h.1),
)

not_symref :
    (sha1 rest : Bytes)
    → length sha1 ≡ 20
    → All (λ b. b < 256) sha1
    → has_prefix symref_prefix (digest_text sha1 ++ rest) ≡ false
unfolding digest_text bytes_eq
not_symref [] rest n h = absurd (omega arith)
not_symref (b ∷ []) rest n h = absurd (omega arith)
not_symref (b ∷ c ∷ []) rest n h = absurd (omega arith)
not_symref (b ∷ c ∷ d ∷ sha1) rest n h = ground (arith, digit-IsText (b / 16) (omega arith))

symref_text :
    (target : Bytes)
    → All IsText target
    → up_to_nul (strip_newlines (symref_prefix ++ target ++ 10 ∷ [])) ≡ symref_prefix ++ target
symref_text target h = strip_newlines-text (symref_prefix ++ target) (
  (omega arith, omega arith),
  (
    (omega arith, omega arith),
    ((omega arith, omega arith), ((omega arith, omega arith), ((omega arith, omega arith), h))),
  ),
)

parse_symref_line :
    (name target : Bytes)
    → 1 ≤ length target
    → parse_ref_line name (symref_prefix ++ target) ≡ ok (symref name target)
unfolding parse_ref_line parse_symref bytes_eq
parse_symref_line name [] h = absurd (omega arith)
parse_symref_line name (c ∷ target) h = refl

parse_digest_line :
    (name sha1 : Bytes)
    → length sha1 ≡ 20
    → All (λ b. b < 256) sha1
    → parse_ref_line name (digest_text sha1) ≡ ok (ref name sha1 false)
unfolding parse_ref_line
parse_digest_line name sha1 n h =
    let whole : digest_text sha1 ++ [] ≡ digest_text sha1 = append-nil (digest_text sha1) in
    let other : has_prefix symref_prefix (digest_text sha1) ≡ false =
      ap (has_prefix symref_prefix) (sym whole) ∙ not_symref sha1 [] n h in
    let parsed : parse_sha1_digest (digest_text sha1) ≡ some sha1 =
      ap parse_sha1_digest (sym whole) ∙ parse_sha1_digest-digest_text sha1 [] n h in
    rw (other, parsed) refl

-- A reference that is not packed, with an identifier of 20 bytes or a target that is not empty and
-- without a NUL or a newline, is read back by parse_ref_file from what got_ref_write prints.
pub parse_ref_file-ref_contents :
    (r : Reference)
    → IsWritable r
    → (text : Bytes) × (ref_contents r ≡ some text)
      × (parse_ref_file (name_of r) (first_line text) ≡ ok (some r))
unfolding ref_contents parse_ref_file sha1_digest_to_str
parse_ref_file-ref_contents (symref name target) (h, n) = (
  symref_prefix ++ target ++ 10 ∷ [],
  refl,
  rw (symref_text target h, parse_symref_line name target n) refl,
)
parse_ref_file-ref_contents (ref name sha1 packed) (n, h, loose) = (
  digest_text sha1 ++ 10 ∷ [],
  refl,
  rw
      (
        strip_newlines-text (digest_text sha1) (All-digest_text sha1 h),
        parse_digest_line name sha1 n h,
        loose,
      )
      refl,
)
