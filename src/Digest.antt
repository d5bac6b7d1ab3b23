-- ===== src/Digest.antt =====
-- lib/sha1.c: digests in hexadecimal. strtol(3) and snprintf(3) are modelled as far as they are used.
pub mod RoundTrip
mod Tests
use gameoftrees.Base.{
  ℕ, zero, suc, ◌+◌, ◌-◌, ◌*◌, ◌/◌, ◌%◌, Bool, true, false, ◌&&◌, ◌||◌, not, List, [], ◌∷◌, ◌++◌,
  Bytes, Option, none, some, ltb, leb, ◌==◌, if◌then◌else◌, length,
}

-- isspace(3)
abbrev pub is_space : ℕ → Bool
is_space c = c == 0x20 || (leb 9 c && leb c 13)

unfoldable pub hex_value : ℕ → Option ℕ
hex_value c =
    if leb b'0' c && leb c b'9'
    then some (c - b'0')
    else if leb b'a' c && leb c b'f'
    then some (c - b'a' + 10)
    else if leb b'A' c && leb c b'F'
    then some (c - b'A' + 10)
    else none

-- The digits at the start of a string: how many, their value onto `acc`, and what follows.
unfoldable pub digits : ℕ → Bytes → ℕ × ℕ × Bytes
digits acc [] = (0, acc, [])
digits acc (c ∷ s) = elim (hex_value c) [
  | none ↦ (0, acc, c ∷ s)
  | some d ↦ let (n, value, rest) = digits (acc * 16 + d) s in (n + 1, value, rest)
]

unfoldable pub skip_spaces : Bytes → Bytes
skip_spaces [] = []
skip_spaces (c ∷ s) = let rest = skip_spaces s in if is_space c then rest else c ∷ s

-- A sign, and whether it is a minus.
unfoldable pub sign : Bytes → Bool × Bytes
sign [] = (false, [])
sign (c ∷ s) = if c == b'-' then (true, s) else if c == b'+' then (false, s) else (false, c ∷ s)

-- The prefix "0x" in front of a digit.
unfoldable pub skip_prefix : Bytes → Bytes
skip_prefix (z ∷ x ∷ c ∷ s) =
    if z == b'0' && (x == b'x' || x == b'X')
    then elim (hex_value c) [ none ↦ z ∷ x ∷ c ∷ s | some _ ↦ c ∷ s ]
    else z ∷ x ∷ c ∷ s
skip_prefix s = s

-- strtol(hex, &ep, 16): whether the number is negative, its magnitude, and the string at `ep`.
unfoldable pub strtol : Bytes → Bool × ℕ × Bytes
strtol hex =
    let (negative, s) = sign (skip_spaces hex) in
    let (n, value, rest) = digits 0 (skip_prefix s) in
    if n == 0 then (false, 0, hex) else (negative, value, rest)

-- `(uint8_t)lval`
abbrev to_byte : Bool → ℕ → ℕ
to_byte negative value = if negative then (256 - value % 256) % 256 else value % 256

-- The strings that got_parse_sha1_digest passes have at most two digits, so that ERANGE is not met.
unfoldable pub parse_xdigit : Bytes → Option ℕ
parse_xdigit hex =
    let (negative, value, rest) = strtol hex in
    if length hex == 0 || not (length rest == 0) then none else some (to_byte negative value)

-- Byte by byte, with `n` to go.
unfoldable pub parse_digest_loop : ℕ → Bytes → Option Bytes
parse_digest_loop zero line = some []
parse_digest_loop (suc n) [] = none
parse_digest_loop (suc n) (a ∷ []) = none
parse_digest_loop (suc n) (a ∷ b ∷ line) =
    let rest = parse_digest_loop n line in
    elim (parse_xdigit (a ∷ b ∷ [])) [
      | none ↦ none
      | some byte ↦ elim rest [ none ↦ none | some bytes ↦ some (byte ∷ bytes) ]
    ]

unfoldable pub parse_sha1_digest : Bytes → Option Bytes
parse_sha1_digest line = parse_digest_loop 20 line

-- A digit of "%.2x".
unfoldable pub digit : ℕ → ℕ
digit d = if ltb d 10 then b'0' + d else b'a' + d - 10

unfoldable pub digest_text : Bytes → Bytes
digest_text [] = []
digest_text (b ∷ digest) = digit (b / 16) ∷ digit (b % 16) ∷ digest_text digest

-- `size` is the buffer's size, which has to hold 40 digits and the NUL.
unfoldable pub sha1_digest_to_str : Bytes → ℕ → Option Bytes
sha1_digest_to_str digest size = if ltb size 41 then none else some (digest_text digest)
