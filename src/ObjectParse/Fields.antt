-- ===== src/ObjectParse/Fields.antt =====
-- The fields of commits and tags in lib/object_parse.c. A buffer is what is left of an object; a read
-- past its end is a trap, since nothing ends it with a NUL.
pub mod RoundTrip
use gameoftrees.Base.{
  ℕ, zero, suc, ◌+◌, ◌-◌, ◌^◌, Bool, true, false, ◌&&◌, ◌||◌, not, List, [], ◌∷◌, ◌++◌, Bytes,
  Option, none, some, ltb, ◌==◌, if◌then◌else◌, length, drop,
}
use gameoftrees.Base.Decimal.{is_digit, strtonum}
use gameoftrees.Base.Int.{ℤ, pos, negsuc, sub_ℕ, ◌+ℤ◌, ◌-ℤ◌, ◌*ℤ◌}
use gameoftrees.Error.{bad_obj_data, out_of_bounds, Result, ok, err, trap, ◌>>=◌}
use gameoftrees.Digest.{parse_sha1_digest}
use gameoftrees.ObjectParse.Tree.{string_of}

-- `strncmp(s, label, strlen(label)) == 0`; a label has no NUL.
abbrev pub starts_with : Bytes → Bytes → Result Bool
starts_with [] s = ok true
starts_with (l ∷ label) [] = trap out_of_bounds
starts_with (l ∷ label) (c ∷ s) =
    let rest = starts_with label s in if c == l then rest else ok false

-- An identifier in hexadecimal of 40 digits and a byte behind it, where `remain` has been tested.
pub take_id : Bytes → Result (Bytes × Bytes)
take_id s =
    if ltb (length s) 41
    then err bad_obj_data
    else elim (parse_sha1_digest s) [ none ↦ err bad_obj_data | some id ↦ ok (id, drop 41 s) ]

-- memchr(s, '\n', remain): what is in front of the newline, and what is behind it.
abbrev pub find_newline : Bytes → Option (Bytes × Bytes)
find_newline [] = none
find_newline (c ∷ s) =
    let rest = find_newline s in
    if c == 0x0a
    then some ([], s)
    else elim rest [ none ↦ none | some (line, later) ↦ some (c ∷ line, later) ]

-- The string at `s` once its newline is a NUL, and what is `slen + 1` bytes behind `s`.
pub take_line : Bytes → Result (Bytes × Bytes)
take_line [] = err bad_obj_data
take_line (c ∷ s) = elim (find_newline (c ∷ s)) [
  | none ↦ err bad_obj_data
  | some (line, later) ↦
      let text = line ++ (0 ∷ later) in ok (string_of text, drop (length (string_of text) + 1) text)
]

-- strrchr(3) for a space: what is in front of it, and what is behind it.
abbrev pub last_space : Bytes → Option (Bytes × Bytes)
last_space [] = none
last_space (c ∷ s) =
    let rest = last_space s in
    elim rest [
      | some (before, behind) ↦ some (c ∷ before, behind)
      | none ↦ if c == b' ' then some ([], s) else none
    ]

-- A byte of a string, which a NUL ends.
abbrev pub char_at : Bytes → ℕ → Result ℕ
char_at [] zero = ok 0
char_at [] (suc i) = trap out_of_bounds
char_at (c ∷ s) zero = ok c
char_at (c ∷ s) (suc i) = char_at s i

-- A `char`, which has a sign; isdigit(3) is false of a negative one.
abbrev pub char_value : ℕ → ℤ
char_value c = if ltb c 0x80 then pos c else sub_ℕ c 0x100

-- `!isdigit(*p) && !isdigit(*(p + 1))`
pub no_digits : Bytes → ℕ → Result Bool
no_digits s i = do
  a ← char_at s i
  if is_digit a then ok false else char_at s (i + 1) >>= λ b. ok (not (is_digit b))

-- `((*p - '0') * 10) + (*(p + 1) - '0')`
pub two_digits : Bytes → ℕ → Result ℤ
two_digits s i = do
  a ← char_at s i
  b ← char_at s (i + 1)
  ok ((char_value a -ℤ pos b'0') *ℤ pos 10 +ℤ (char_value b -ℤ pos b'0'))

pub pair_of_digits : Bytes → ℕ → Result ℤ
pair_of_digits s i = do bad ← no_digits s i; if bad then err bad_obj_data else two_digits s i

pub parse_gmtoff : Bytes → Result ℤ
parse_gmtoff tzstr = do
  c ← char_at tzstr 0
  if not (c == b'-') && not (c == b'+')
      then err bad_obj_data
      else pair_of_digits tzstr 1 >>= λ h. pair_of_digits tzstr 3 >>= λ m.
          ok ((h *ℤ pos 60 *ℤ pos 60 +ℤ m *ℤ pos 60) *ℤ (if c == b'-' then negsuc 0 else pos 1))

-- A person with a time and an offset from UTC.
pub record Signature : Type 0 where
  pub name : Bytes
  pub time : ℕ
  pub gmtoff : ℤ

-- Behind the timezone.
pub parse_timestamp : ℤ → Option (Bytes × Bytes) → Result Signature
parse_timestamp gmtoff none = err bad_obj_data
parse_timestamp gmtoff (some (name, digits)) = elim (strtonum (2 ^ 63 - 1) digits) [
  | none ↦ err bad_obj_data
  | some time ↦ ok (record { name = name; time = time; gmtoff = gmtoff })
]

-- What is left of the string is the name.
pub parse_commit_time : Bytes → Result Signature
parse_commit_time committer = elim (last_space committer) [
  | none ↦ err bad_obj_data
  | some (before, tzstr) ↦
      parse_gmtoff tzstr >>= λ gmtoff. parse_timestamp gmtoff (last_space before)
]

-- The block for an author, a committer or a tagger, behind the test of its label.
pub signature_line : Bytes → Result (Option Signature × Bytes)
signature_line s = do
  (line, rest) ← take_line s
  signature ← parse_commit_time line
  ok (some signature, rest)

pub optional_signature : Bytes → Bytes → Result (Option Signature × Bytes)
optional_signature label s = do
  found ← starts_with label s
  if found then signature_line (drop (length label) s) else ok (none, s)
