-- ===== src/Digest/Tests.antt =====
-- Runs of lib/sha1.c, and its theorem at a digest.
use gameoftrees.Base.{◌≡◌, refl, [], ◌∷◌, ◌++◌, Bytes, some, replicate, arith}
use gameoftrees.Digest.{
  parse_xdigit, strtol, digits, skip_spaces, sign, skip_prefix, hex_value, parse_sha1_digest,
  sha1_digest_to_str,
}
use gameoftrees.Digest.RoundTrip.{parse_sha1_digest-sha1_digest_to_str}

-- strtol(3) takes a sign and white space.
negative_byte : parse_xdigit (b'-' ∷ b'1' ∷ []) ≡ some 255
unfolding parse_xdigit strtol digits skip_spaces sign skip_prefix hex_value
negative_byte = refl

parse_sha1_digest-sha1_digest_to_str_example :
    (text : Bytes) × (sha1_digest_to_str (replicate 20 0xa7) 41 ≡ some text)
    × (parse_sha1_digest (text ++ b' ' ∷ []) ≡ some (replicate 20 0xa7))
parse_sha1_digest-sha1_digest_to_str_example =
    parse_sha1_digest-sha1_digest_to_str (replicate 20 0xa7) (b' ' ∷ []) 41 refl (omega arith)
      (omega arith)
