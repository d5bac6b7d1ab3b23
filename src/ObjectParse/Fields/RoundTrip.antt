-- ===== src/ObjectParse/Fields/RoundTrip.antt =====
-- Fields as lib/object_create.c writes them, and what the parsers of lib/object_parse.c make of them.
use gameoftrees.Base.{
  ℕ, ◌+◌, ◌-◌, ◌^◌, ◌≤◌, ◌<◌, ◌≡◌, ◌≢◌, refl, sym, ap, true, false, [], ◌∷◌, ◌++◌, Bytes, none,
  some, arith, All, ltb, ◌==◌, length, drop, length-append, All-append, drop-append,
  drop-append_cons, append_assoc,
}
use gameoftrees.Base.Decimal.{print_decimal, print_decimal-All, IsDigit, strtonum-print_decimal}
use gameoftrees.Base.Int.{pos, ◌+ℤ◌, ◌-ℤ◌, ◌*ℤ◌}
use gameoftrees.Error.{ok}
use gameoftrees.Digest.{digest_text}
use gameoftrees.Digest.RoundTrip.{parse_sha1_digest-digest_text}
use gameoftrees.ObjectParse.Tree.RoundTrip.{string_of-text}
use gameoftrees.ObjectParse.Fields.{
  starts_with, take_id, find_newline, take_line, last_space, parse_gmtoff, pair_of_digits,
  no_digits, two_digits, Signature, parse_timestamp, parse_commit_time, signature_line,
  optional_signature,
}

-- An identifier's bytes.
pub record IsId (id : Bytes) : Type 0 where
  pub whole : length id ≡ 20
  pub bytes : All (λ v. v < 256) id

pub starts_with_itself : (label s : Bytes) → starts_with label (label ++ s) ≡ ok true
starts_with_itself [] s = refl
starts_with_itself (l ∷ label) s =
    let same : (l == l) ≡ true = ground arith in rw (same, starts_with_itself label s) refl

pub length-digest_text : (id : Bytes) → length (digest_text id) ≡ length id + length id
unfolding digest_text
length-digest_text [] = refl
length-digest_text (b ∷ id) = omega (arith, length-digest_text id)

pub take_id-digest_text :
    (id rest : Bytes) → IsId id → take_id (digest_text id ++ (0x0a ∷ rest)) ≡ ok (id, rest)
unfolding take_id
take_id-digest_text id rest h =
    let size : length (digest_text id) ≡ 40 = omega (arith, length-digest_text id, h.whole) in
    let room : ltb (length (digest_text id ++ (0x0a ∷ rest))) 41 ≡ false =
      ground (arith, length-append {0} (digest_text id) (0x0a ∷ rest)) in
    let end : drop 41 (digest_text id ++ (0x0a ∷ rest)) ≡ rest =
      drop-append_cons (digest_text id) 0x0a rest 41 (omega (arith, size)) in
    rw (room, parse_sha1_digest-digest_text id (0x0a ∷ rest) h.whole h.bytes)
      (ap (λ (s : Bytes). ok (id, s)) end)

-- The text of a line has neither a NUL nor a newline.
abbrev pub IsText : Bytes → Type 0
IsText s = All (λ c. (c ≢ 0) × (c ≢ 0x0a)) s

pub IsText-All : (s : Bytes) → IsText s → All (λ c. c ≢ 0) s
IsText-All [] h = tt
IsText-All (c ∷ s) h = (h.0.0, IsText-All s h.1)

find_newline-text :
    (line rest : Bytes) → IsText line → find_newline (line ++ (0x0a ∷ rest)) ≡ some (line, rest)
find_newline-text [] rest h = refl
find_newline-text (c ∷ line) rest h =
    let other : (c == 0x0a) ≡ false = ground (arith, h.0.1) in
    rw (other, find_newline-text line rest h.1) refl

pub take_line-text :
    (line rest : Bytes) → IsText line → take_line (line ++ (0x0a ∷ rest)) ≡ ok (line, rest)
unfolding take_line
take_line-text [] rest h = refl
take_line-text (c ∷ line) rest h =
    rw
      (
        take_line,
        find_newline-text (c ∷ line) rest h,
        string_of-text (c ∷ line) rest (IsText-All (c ∷ line) h),
        drop-append_cons (c ∷ line) 0 rest (length (c ∷ line) + 1) refl,
      )
      refl

last_space-none : (s : Bytes) → All (λ c. c ≢ b' ') s → last_space s ≡ none
last_space-none [] h = refl
last_space-none (c ∷ s) h =
    let other : (c == b' ') ≡ false = ground (arith, h.0) in rw (last_space-none s h.1, other) refl

pub last_space-text :
    (before behind : Bytes)
    → All (λ c. c ≢ b' ') behind
    → last_space (before ++ (b' ' ∷ behind)) ≡ some (before, behind)
last_space-text [] behind h = rw (last_space-none behind h) refl
last_space-text (c ∷ before) behind h = rw (last_space-text before behind h) refl

-- "+0000"
abbrev pub utc_zone : Bytes
utc_zone = b'+' ∷ b'0' ∷ b'0' ∷ b'0' ∷ b'0' ∷ []

parse_gmtoff-utc_zone : parse_gmtoff utc_zone ≡ ok (pos 0)
unfolding parse_gmtoff pair_of_digits no_digits two_digits ◌+ℤ◌ ◌-ℤ◌ ◌*ℤ◌
parse_gmtoff-utc_zone = refl

digit_plain : (s : Bytes) → All IsDigit s → All (λ c. c ≢ b' ') s
digit_plain [] h = tt
digit_plain (c ∷ s) h = (omega arith, digit_plain s h.1)

-- "%s %lld +0000"
abbrev pub person : Bytes → ℕ → Bytes
person name time = name ++ (b' ' ∷ (print_decimal time ++ (b' ' ∷ utc_zone)))

abbrev pub in_utc : Bytes → ℕ → Signature
in_utc name time = record { name = name; time = time; gmtoff = pos 0 }

pub parse_commit_time-person :
    (name : Bytes) (time : ℕ)
    → time ≤ 2 ^ 63 - 1
    → parse_commit_time (person name time) ≡ ok (in_utc name time)
unfolding parse_commit_time parse_timestamp
parse_commit_time-person name time h =
    rw
      (
        parse_commit_time,
        sym (append_assoc name (b' ' ∷ print_decimal time) (b' ' ∷ utc_zone)),
        last_space-text (name ++ (b' ' ∷ print_decimal time)) utc_zone
            (omega arith, (omega arith, (omega arith, (omega arith, (omega arith, tt))))),
        parse_gmtoff-utc_zone,
        last_space-text name (print_decimal time)
            (digit_plain (print_decimal time) (print_decimal-All time)),
        parse_timestamp,
        strtonum-print_decimal (2 ^ 63 - 1) time h,
      )
      refl

digit-IsText : (s : Bytes) → All IsDigit s → IsText s
digit-IsText [] h = tt
digit-IsText (c ∷ s) h = ((omega arith, omega arith), digit-IsText s h.1)

char_text : (c : ℕ) → 0x0a < c → (c ≢ 0) × (c ≢ 0x0a)
char_text c h = (omega arith, omega arith)

utc_zone-IsText : IsText (b' ' ∷ utc_zone)
utc_zone-IsText =
    let space = char_text b' ' (omega arith) in
    let plus = char_text b'+' (omega arith) in
    let nought = char_text b'0' (omega arith) in
    (space, (plus, (nought, (nought, (nought, (nought, tt))))))

person-IsText : (name : Bytes) (time : ℕ) → IsText name → IsText (person name time)
person-IsText name time h =
    All-append (λ c. (c ≢ 0) × (c ≢ 0x0a)) name (b' ' ∷ (print_decimal time ++ (b' ' ∷ utc_zone))) h
      (
        (omega arith, omega arith),
        All-append (λ c. (c ≢ 0) × (c ≢ 0x0a)) (print_decimal time) (b' ' ∷ utc_zone)
            (digit-IsText (print_decimal time) (print_decimal-All time)) utc_zone-IsText,
      )

pub optional_signature-person :
    (label name : Bytes) (time : ℕ) (rest : Bytes)
    → IsText name
    → time ≤ 2 ^ 63 - 1
    → optional_signature label (label ++ (person name time ++ (0x0a ∷ rest)))
      ≡ ok (some (in_utc name time), rest)
unfolding optional_signature signature_line
optional_signature-person label name time rest h k =
    rw
      (
        starts_with_itself label (person name time ++ (0x0a ∷ rest)),
        drop-append label (person name time ++ (0x0a ∷ rest)),
        take_line-text (person name time) rest (person-IsText name time h),
        parse_commit_time-person name time k,
      )
      refl
