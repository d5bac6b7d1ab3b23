-- ===== src/Digest/RoundTrip.antt =====
-- A digest that is printed is read back.
use gameoftrees.Base.{
  ℕ, ◌+◌, ◌*◌, ◌/◌, ◌%◌, ◌≡◌, ◌≤◌, ◌<◌, refl, sym, ap, false, [], ◌∷◌, ◌++◌, Bytes, some, ◌==◌,
  length, arith, All,
}
use gameoftrees.Digest.{
  is_space, hex_value, digits, skip_spaces, sign, skip_prefix, strtol, parse_xdigit,
  parse_digest_loop, parse_sha1_digest, digit, digest_text, sha1_digest_to_str,
}

hex_value-digit : (d : ℕ) → d < 16 → hex_value (digit d) ≡ some d
unfolding hex_value digit
hex_value-digit d h = ground arith

plain_digit :
    (d : ℕ)
    → d < 16
    → (is_space (digit d) ≡ false) × ((digit d == b'-') ≡ false) × ((digit d == b'+') ≡ false)
unfolding digit
plain_digit d h = ground arith

digits-digit : (a b : ℕ) → a < 16 → b < 16 → digits 0 (digit a ∷ digit b ∷ []) ≡ (2, a * 16 + b, [])
unfolding digits
digits-digit a b h k =
    rw
      (
        digits,
        hex_value-digit a h,
        hex_value-digit b k,
        (let first : 0 + a ≡ a = omega arith in first),
      )
      refl

skip_spaces-digit : (a : ℕ) (s : Bytes) → a < 16 → skip_spaces (digit a ∷ s) ≡ digit a ∷ s
unfolding skip_spaces
skip_spaces-digit a s h = let (space, minus, plus) = plain_digit a h in rw space refl

sign-digit : (a : ℕ) (s : Bytes) → a < 16 → sign (digit a ∷ s) ≡ (false, digit a ∷ s)
unfolding sign
sign-digit a s h = let (space, minus, plus) = plain_digit a h in rw (minus, plus) refl

strtol-digits :
    (a b : ℕ) → a < 16 → b < 16 → strtol (digit a ∷ digit b ∷ []) ≡ (false, a * 16 + b, [])
unfolding strtol skip_prefix
strtol-digits a b h k =
    rw (skip_spaces-digit a (digit b ∷ []) h, sign-digit a (digit b ∷ []) h, digits-digit a b h k)
      refl

pub parse_xdigit-digits :
    (v : ℕ) → v < 256 → parse_xdigit (digit (v / 16) ∷ digit (v % 16) ∷ []) ≡ some v
unfolding parse_xdigit
parse_xdigit-digits v h =
    rw (strtol-digits (v / 16) (v % 16) (omega arith) (omega arith))
      (ap some (let same : (v / 16 * 16 + v % 16) % 256 ≡ v = omega arith in same))

parse_digest_loop-text :
    (digest rest : Bytes)
    → All (λ v. v < 256) digest
    → parse_digest_loop (length digest) (digest_text digest ++ rest) ≡ some digest
unfolding parse_digest_loop digest_text
parse_digest_loop-text [] rest h = refl
parse_digest_loop-text (v ∷ digest) rest h =
    rw (parse_digest_loop, parse_xdigit-digits v h.0, parse_digest_loop-text digest rest h.1) refl

pub parse_sha1_digest-digest_text :
    (digest rest : Bytes)
    → length digest ≡ 20
    → All (λ v. v < 256) digest
    → parse_sha1_digest (digest_text digest ++ rest) ≡ some digest
unfolding parse_sha1_digest
parse_sha1_digest-digest_text digest rest n h = rw (sym n) (parse_digest_loop-text digest rest h)

-- got_sha1_digest_to_str of a digest of 20 bytes, with a buffer of 41 bytes or more, gives text
-- from which got_parse_sha1_digest, whatever follows the text, reads the digest back.
pub parse_sha1_digest-sha1_digest_to_str :
    (digest rest : Bytes) (size : ℕ)
    → length digest ≡ 20
    → All (λ v. v < 256) digest
    → 41 ≤ size
    → (text : Bytes) × (sha1_digest_to_str digest size ≡ some text)
      × (parse_sha1_digest (text ++ rest) ≡ some digest)
unfolding sha1_digest_to_str
parse_sha1_digest-sha1_digest_to_str digest rest size n h room =
    (digest_text digest, ground arith, parse_sha1_digest-digest_text digest rest n h)
